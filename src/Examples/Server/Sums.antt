-- ===== src/Examples/Server/Sums.antt =====
-- What sum_responder (examples/asyncserver.c) does with two numbers.
use libamp.Common.{◌≡◌, refl, arith, true, Option, none, some, Option-cases, inl, inr}
use libamp.Common.Int.{ℤ, pos, negsuc, ◌+ℤ◌, leb_ℤ}
use libamp.CString.{Bytes, codes, strlen, c_str}
use libamp.Memory.{Memory}
use libamp.Memory.Plenty.{IsPlenty, IsPlenty-after}
use libamp.Errors.{ok}
use libamp.Box.{Box, empty_box, amp_new_box, amp_free_box}
use libamp.Box.Valid.{empty_box-IsValid}
use libamp.Box.Octets.{empty_box-HasBytes}
use libamp.Box.Plenty.{new_box_got}
use libamp.Box.Stored.{IsGood, IsStored, IsKey}
use libamp.Types.{amp_get_long_long, amp_put_long_long}
use libamp.Types.Decimal.{show_ℤ}
use libamp.Types.Texts.{IsLlong}
use libamp.Types.Stored.{put_long_long-IsStored}
use libamp.Messages.{Request, amp_free_request}
use libamp.Messages.Steady.{new_box_steady}
use libamp.Calls.{Peer, Output}
use libamp.Handlers.{amp_respond}
use libamp.Examples.Server.{add_long_long, answered, send_total, sum_answer, sum_responder}

abbrev pub total_key : Bytes
total_key = codes "total"

pub total_key-IsKey : IsKey total_key
unfolding strlen c_str
total_key-IsKey = record { fits = refl; octets = omega arith }

pub empty_box-IsGood : IsGood empty_box
empty_box-IsGood = record { valid = empty_box-IsValid; octets = empty_box-HasBytes }

add_long_long-IsLlong : (a b : ℤ) → IsLlong (a +ℤ b) → add_long_long a b ≡ some (a +ℤ b)
unfolding add_long_long
add_long_long-IsLlong a b h =
    let low : leb_ℤ (negsuc 9223372036854775807) (a +ℤ b) ≡ true = ground (arith, h.0) in
    let high : leb_ℤ (a +ℤ b) (pos 9223372036854775807) ≡ true = ground (arith, h.1) in
    rw (low, high) refl

module _ {F A S : Type 0} (fprintf : Bytes → S → S) where
  -- What sum_responder leaves behind amp_respond.
  abbrev pub settled :
      Request → Option (ℤ × Box × Peer F A S × Memory) → Option (Peer F A S × Memory)
  settled req none = none
  settled req (some (ret, packet, peer, m)) =
      some (answered fprintf ret peer, amp_free_box (some packet) (amp_free_request req m))

  -- For two numbers with a sum that is a `long long`, the answer has the sum alone.
  pub sum_total :
      (out : Output F A S) (peer : Peer F A S) (req : Request) (args : Box) (a b : ℤ) (m : Memory)
      → req.args ≡ some args
      → amp_get_long_long args (codes "a") ≡ ok a
      → amp_get_long_long args (codes "b") ≡ ok b
      → IsLlong (a +ℤ b)
      → IsPlenty m
      → (box : Box) × (m1 : Memory) × IsStored empty_box total_key (show_ℤ (a +ℤ b)) box
        × IsPlenty m1
        × (sum_responder fprintf out peer req m ≡ settled req (amp_respond out peer req box m1))
  unfolding sum_responder sum_answer send_total
  sum_total out peer req args a b m has first second fits plenty =
      let made = new_box_got m plenty in
      let m1 = (amp_new_box m).1 in
      let put = amp_put_long_long empty_box total_key (a +ℤ b) m1 in
      let (done, stored, plenty1) =
        put_long_long-IsStored empty_box total_key (a +ℤ b) m1 fits empty_box-IsGood total_key-IsKey
          (IsPlenty-after m m1 (new_box_steady m) plenty) in
      let add = add_long_long-IsLlong a b fits in
      (
        put.1,
        put.2,
        stored,
        plenty1,
        elim (Option-cases (amp_respond out peer req put.1 put.2)) [
          | inl e ↦ ground (arith, has, first, second, made, add, done, e)
          | inr (x, e) ↦ ground (arith, has, first, second, made, add, done, e)
        ],
      )
