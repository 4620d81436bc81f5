-- ===== src/Handlers/Reply.antt =====
-- What _amp_send_unhandled_command_error (amp.c) sends.
use libamp.Common.{
  ℕ, ◌+◌, ◌≤◌, ◌≡◌, refl, ap, ◌∙◌, arith, true, false, ◌++◌, some, length, take, take_all,
  length-append, length-take,
}
use libamp.Common.Int.{pos}
use libamp.CString.{Bytes, codes, str_eq, strlen, c_str, bytes_eq}
use libamp.CString.Laws.{str_eq_refl}
use libamp.Memory.{Memory, malloc, release}
use libamp.Memory.Plenty.{IsPlenty, IsPlenty-after}
use libamp.Errors.{ok}
use libamp.Box.{Box, empty_box, put_buf, get_buf, amp_new_box, amp_free_box}
use libamp.Box.Valid.{IsValid, empty_box-IsValid}
use libamp.Box.Plenty.{put_buf-IsPlenty, found_serialized, malloc_got, new_box_got}
use libamp.Box.Put.{good_key}
use libamp.Box.Serialize.{amp_serialize_box}
use libamp.Types.{amp_put_bytes, amp_put_cstring}
use libamp.Messages.{Request, error, error_code_key, error_descr_key}
use libamp.Messages.Steady.{malloc_steady, new_box_steady}
use libamp.Calls.{Peer, WriteHandler}
use libamp.Handlers.{prefix, suffix, send_description, send_unhandled_command_error}

-- The text of the description.
abbrev pub description : Request → Bytes
description req = prefix ++ (take req.command.size req.command.value ++ suffix)

-- The lookups of an error reply.
abbrev pub RefusesCommand : Request → Bytes → ℕ → Box → Type 0
RefusesCommand req ask n box =
    (get_buf box error ≡ ok (take n ask, n))
    × (get_buf box error_code_key ≡ ok (codes "UNHANDLED", 9))
    × (get_buf box error_descr_key ≡ ok (description req, length (description req)))

-- The three keys are as long as they may be, and different.
keys_good :
    (good_key error ≡ true)
    × (good_key error_code_key ≡ true)
    × (good_key error_descr_key ≡ true)
    × (str_eq error error_code_key ≡ false)
    × (str_eq error error_descr_key ≡ false)
    × (str_eq error_code_key error_descr_key ≡ false)
    × (strlen (codes "UNHANDLED") ≡ 9)
unfolding str_eq strlen c_str bytes_eq
keys_good = (refl, refl, refl, refl, refl, refl, refl)

pub length-description : (req : Request) → length (description req) ≤ req.command.size + 21
length-description req =
    let cut = length-take req.command.size req.command.value in
    let inner = length-append (take req.command.size req.command.value) suffix in
    let outer = length-append prefix (take req.command.size req.command.value ++ suffix) in
    omega (arith, cut, inner, outer)

module _ {F A S : Type 0} (w : WriteHandler F A S) (req : Request) (peer : Peer F A S) where
  -- The end of a reply: a box that is full but for its description is completed, and written.
  description_sent :
      (ask : Bytes) (n : ℕ) (box : Box) (m : Memory)
      → IsValid box
      → IsPlenty m
      → get_buf box error ≡ ok (take n ask, n)
      → get_buf box error_code_key ≡ ok (codes "UNHANDLED", 9)
      → req.command.size + 21 ≤ 65535
      → (reply : Box) × (m' : Memory) × (bytes : Bytes) × (size : ℕ) × RefusesCommand req ask n
          reply
        × ((amp_serialize_box reply m').0 ≡ ok (bytes, size))
        × (send_description w req box peer m ≡ (
            let (ret, peer', m'') = w bytes size peer (amp_serialize_box reply m').1 in
            (ret, peer', release 1 (amp_free_box (some reply) m''))))
  unfolding send_description amp_put_bytes
  description_sent ask n box m v plenty asked coded fits =
      let text = description req in
      let got : (malloc m).0 ≡ true = malloc_got m plenty in
      let m1 = (malloc m).1 in
      let plenty1 = IsPlenty-after m m1 (malloc_steady m) plenty in
      let put = put_buf box error_descr_key text (pos (length text)) m1 in
      let (good, good', good'', ne, ne', ne'', nine) = keys_good in
      let (done, v1, plenty2, lookup) =
        put_buf-IsPlenty box error_descr_key text (length text) m1 v good'' (omega arith)
          (omega (arith, length-description req)) plenty1 in
      let described : get_buf put.1 error_descr_key ≡ ok (text, length text) =
        lookup error_descr_key
        ∙ rw (str_eq_refl error_descr_key, take_all (length text) text (omega arith)) refl in
      let (bytes, packed) =
        found_serialized put.1 error_descr_key (text, length text) put.2 v1 plenty2 described in
      (
        put.1,
        put.2,
        bytes,
        length bytes,
        (lookup error ∙ rw ne' asked, lookup error_code_key ∙ rw ne'' coded, described),
        packed,
        rw (got, done, packed, send_description, amp_put_bytes) refl,
      )

  -- The steps before the description.
  reaches_description :
      (ask : Bytes) (n : ℕ) (m : Memory)
      → (amp_new_box m).0 ≡ some empty_box
      → (let put1 = put_buf empty_box error ask (pos n) (amp_new_box m).1 in
          let code = codes "UNHANDLED" in
          let put2 = put_buf put1.1 error_code_key code (pos (strlen code)) put1.2 in
          put1.0 ≡ 0
          → put2.0 ≡ 0
          → send_unhandled_command_error (some w) req ask n peer m
            ≡ some (send_description w req put2.1 peer put2.2))
  unfolding send_unhandled_command_error amp_put_bytes amp_put_cstring
  reaches_description ask n m made done1 done2 = ground (arith, made, done1, done2)

  -- With an allocator that never fails and a write handler `w`, a request with an ask key of at most
  -- 65535 bytes and a command of at most 65514 is answered: _amp_send_unhandled_command_error writes
  -- one packet, the serialization of a box in which _error is the ask key, _error_code is "UNHANDLED"
  -- and _error_description is "Unhandled Command: " with the command in quotes; it returns what `w`
  -- returns, and frees the box and the buffer of the description.
  pub unhandled_reply :
      (ask : Bytes) (n : ℕ) (m : Memory)
      → n ≤ length ask
      → n ≤ 65535
      → req.command.size + 21 ≤ 65535
      → IsPlenty m
      → (reply : Box) × (m' : Memory) × (bytes : Bytes) × (size : ℕ) × RefusesCommand req ask n
          reply
        × ((amp_serialize_box reply m').0 ≡ ok (bytes, size))
        × (send_unhandled_command_error (some w) req ask n peer m ≡ (
            let (ret, peer', m'') = w bytes size peer (amp_serialize_box reply m').1 in
            some (ret, peer', release 1 (amp_free_box (some reply) m''))))
  unhandled_reply ask n m fits short_ask short plenty =
      let m1 = (amp_new_box m).1 in
      let made = new_box_got m plenty in
      let (good, good', good'', ne, ne', ne'', nine) = keys_good in
      let (done1, v1, plenty1, lookup1) =
        put_buf-IsPlenty empty_box error ask n m1 empty_box-IsValid good fits short_ask
          (IsPlenty-after m m1 (new_box_steady m) plenty) in
      let put1 = put_buf empty_box error ask (pos n) m1 in
      let code = codes "UNHANDLED" in
      let put2 = put_buf put1.1 error_code_key code (pos (strlen code)) put1.2 in
      let (done2, v2, plenty2, lookup2) =
        put_buf-IsPlenty put1.1 error_code_key code (strlen code) put1.2 v1 good'
          (omega (arith, nine)) (omega (arith, nine)) plenty1 in
      let asked : get_buf put2.1 error ≡ ok (take n ask, n) =
        lookup2 error ∙ rw ne (lookup1 error ∙ rw (str_eq_refl error) refl) in
      let coded : get_buf put2.1 error_code_key ≡ ok (code, 9) =
        lookup2 error_code_key ∙ rw (str_eq_refl error_code_key, nine) refl in
      let (reply, m', bytes, size, refuses, packed, sent) =
        description_sent ask n put2.1 put2.2 v2 plenty2 asked coded short in
      (
        reply,
        m',
        bytes,
        size,
        refuses,
        packed,
        reaches_description ask n m made done1 done2 ∙ ap some sent,
      )
