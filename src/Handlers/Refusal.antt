-- ===== src/Handlers/Refusal.antt =====
-- The packet that _amp_send_unhandled_command_error (amp.c) writes, with an allocator that never fails.
use libamp.Common.{ℕ, ◌+◌, ◌<◌, ◌≤◌, ◌≡◌, refl, ap, ◌∙◌, arith, false, ◌++◌, some, take, length}
use libamp.Common.Int.{ℤ, pos}
use libamp.CString.{Bytes, codes, str_eq, strlen, c_str, bytes_eq, hash_string}
use libamp.Hashing.Buckets.{view, home, All-append}
use libamp.Hashing.Chain.{find}
use libamp.Memory.{Memory, malloc, release}
use libamp.Memory.Plenty.{IsPlenty, IsPlenty-after}
use libamp.Errors.{ok, is_ok}
use libamp.Box.{Box, empty_box, get_buf, amp_has_key, amp_new_box, amp_free_box}
use libamp.Box.Valid.{empty_box-IsValid, has_key-get_buf}
use libamp.Box.Octets.{IsByteString, empty_box-HasBytes, take-IsByteString}
use libamp.Box.Plenty.{found_serialized, malloc_got, new_box_got}
use libamp.Box.Stored.{IsGood, IsStored, IsKey, put_prefix-IsStored, put_buf-IsStored}
use libamp.Box.Serialize.{amp_serialize_box}
use libamp.Types.{amp_put_bytes, amp_put_cstring}
use libamp.Types.Stored.{IsText, put_cstring-IsStored}
use libamp.Messages.{Request, command_key, answer, error, error_code_key, error_descr_key}
use libamp.Messages.Steady.{malloc_steady, new_box_steady, serialize_steady}
use libamp.Calls.{Peer, WriteHandler}
use libamp.Handlers.{prefix, suffix, send_description, send_unhandled_command_error}
use libamp.Handlers.Reply.{description, length-description}

abbrev pub unhandled : Bytes
unhandled = codes "UNHANDLED"

-- An error packet that refuses a command.
pub record IsRefusal (key text : Bytes) (box : Box) : Type 0 where
  pub good : IsGood box
  pub asked : get_buf box error ≡ ok (key, length key)
  pub coded : get_buf box error_code_key ≡ ok (unhandled, length unhandled)
  pub described : get_buf box error_descr_key ≡ ok (text, length text)
  pub no_command : amp_has_key box command_key ≡ false
  pub no_answer : amp_has_key box answer ≡ false

error_keys : IsKey error × IsKey error_code_key × IsKey error_descr_key × IsText unhandled
unfolding strlen c_str
error_keys = (
  record { fits = refl; octets = omega arith },
  record { fits = refl; octets = omega arith },
  record { fits = refl; octets = omega arith },
  record { clean = omega arith; octets = omega arith; short = omega arith },
)

error_keys_apart :
    (str_eq error error_code_key ≡ false)
    × (str_eq error error_descr_key ≡ false)
    × (str_eq error_code_key error_descr_key ≡ false)
    × (str_eq command_key error ≡ false)
    × (str_eq command_key error_code_key ≡ false)
    × (str_eq command_key error_descr_key ≡ false)
    × (str_eq answer error ≡ false)
    × (str_eq answer error_code_key ≡ false)
    × (str_eq answer error_descr_key ≡ false)
unfolding str_eq c_str bytes_eq
error_keys_apart = (refl, refl, refl, refl, refl, refl, refl, refl, refl)

bare_box :
    (is_ok (get_buf empty_box command_key) ≡ false) × (is_ok (get_buf empty_box answer) ≡ false)
unfolding get_buf empty_box view find home hash_string
bare_box = (refl, refl)

-- The three pairs are put.
puts-IsRefusal :
    (key text : Bytes) (box1 box2 box3 : Box)
    → IsStored empty_box error key box1
    → IsStored box1 error_code_key unhandled box2
    → IsStored box2 error_descr_key text box3
    → IsRefusal key text box3
puts-IsRefusal key text box1 box2 box3 s1 s2 s3 =
    let (a1, a2, a3, c1, c2, c3, d1, d2, d3) = error_keys_apart in
    record {
      good = s3.good;
      asked = s3.others error a2 ∙ s2.others error a1 ∙ s1.found;
      coded = s3.others error_code_key a3 ∙ s2.found;
      described = s3.found;
      no_command =
          has_key-get_buf box3 command_key s3.good.valid
          ∙ ap is_ok
              (s3.others command_key c3 ∙ s2.others command_key c2 ∙ s1.others command_key c1)
          ∙ bare_box.0;
      no_answer =
          has_key-get_buf box3 answer s3.good.valid
          ∙ ap is_ok (s3.others answer d3 ∙ s2.others answer d2 ∙ s1.others answer d1)
          ∙ bare_box.1;
    }

description-IsByteString :
    (req : Request) → IsByteString req.command.value → IsByteString (description req)
description-IsByteString req octets =
    All-append (λ c. c < 256) prefix (take req.command.size req.command.value ++ suffix)
      (omega arith)
      (All-append (λ c. c < 256) (take req.command.size req.command.value) suffix
        (take-IsByteString req.command.size req.command.value octets) (omega arith))

module _ {F A S : Type 0} where
  -- What is left if the packet was written.
  abbrev pub refused :
      WriteHandler F A S → Bytes → Peer F A S → Memory → Box → ℤ × Peer F A S × Memory
  refused w bytes peer m packet =
      let (ret, peer', m') = w bytes (length bytes) peer m in
      (ret, peer', release 1 (amp_free_box (some packet) m'))

  pub sent-IsRefusal :
      (w : WriteHandler F A S) (req : Request) (peer : Peer F A S) (ask : Bytes) (n : ℕ)
      (m : Memory)
      → IsByteString ask
      → n ≤ length ask
      → n ≤ 65535
      → IsByteString req.command.value
      → req.command.size + 21 ≤ 65535
      → IsPlenty m
      → (packet : Box) × (bytes : Bytes) × (m1 m2 : Memory) × IsRefusal
          (take n ask)
          (description req)
          packet
        × IsPlenty m2
        × ((amp_serialize_box packet m1).0 ≡ ok (bytes, length bytes))
        × (send_unhandled_command_error (some w) req ask n peer m
            ≡ some (refused w bytes peer m2 packet))
  unfolding send_unhandled_command_error send_description amp_put_bytes
  sent-IsRefusal w req peer ask n m octets fits short command_octets command_short plenty =
      let (k1, k2, k3, t) = error_keys in
      let empty : IsGood empty_box = record {
        valid = empty_box-IsValid;
        octets = empty_box-HasBytes;
      } in
      let made = new_box_got m plenty in
      let m1 = (amp_new_box m).1 in
      let put1 = amp_put_bytes empty_box error ask (pos n) m1 in
      let (done1, s1, plenty1) =
        put_prefix-IsStored empty_box error ask n m1 empty k1 octets fits short
          (IsPlenty-after m m1 (new_box_steady m) plenty) in
      let put2 = amp_put_cstring put1.1 error_code_key unhandled put1.2 in
      let (done2, s2, plenty2) =
        put_cstring-IsStored put1.1 error_code_key unhandled put1.2 t s1.good k2 plenty1 in
      let m3 = (malloc put2.2).1 in
      let got = malloc_got put2.2 plenty2 in
      let text = description req in
      let put3 = amp_put_bytes put2.1 error_descr_key text (pos (length text)) m3 in
      let (done3, s3, plenty3) =
        put_buf-IsStored put2.1 error_descr_key text m3 s2.good k3
          (description-IsByteString req command_octets)
          (omega (arith, length-description req, command_short))
          (IsPlenty-after put2.2 m3 (malloc_steady put2.2) plenty2) in
      let (bytes, written) =
        found_serialized put3.1 error_descr_key (text, length text) put3.2 s3.good.valid plenty3
          s3.found in
      let m4 = (amp_serialize_box put3.1 put3.2).1 in
      (
        put3.1,
        bytes,
        put3.2,
        m4,
        puts-IsRefusal (take n ask) text put1.1 put2.1 put3.1 s1 s2 s3,
        IsPlenty-after put3.2 m4 (serialize_steady put3.1 put3.2) plenty3,
        written,
        rw (made, done1, done2, got, done3, written, send_unhandled_command_error, send_description)
            refl,
      )
