-- ===== src/Box/Plenty.antt =====
-- The puts and the serialization of a box (box.c) with an allocator that never fails.
use libamp.Common.{
  ℕ, ◌+◌, ◌≤◌, ◌≡◌, ◌≢◌, refl, ◌∙◌, arith, true, false, List, [], ◌∷◌, none, some, length, take,
  ◌==◌, if◌then◌else◌,
}
use libamp.Common.Int.{pos}
use libamp.CString.{Bytes, str_eq}
use libamp.CString.Laws.{box_key}
use libamp.Memory.{Memory, malloc}
use libamp.Memory.Plenty.{IsPlenty, IsPlenty-after}
use libamp.Errors.{ok}
use libamp.Hashing.Chain.{find}
use libamp.Hashing.Buckets.{flatten, find-flatten}
use libamp.Box.{Box, KeyValue, key_of, empty_box, put_buf, get_buf, amp_new_box}
use libamp.Box.Valid.{IsValid}
use libamp.Box.Put.{good_key, put_buf_code, put_buf-lookup, put_buf-IsValid, put_buf_succeeds}
use libamp.Box.Serialize.{amp_serialize_box, write_loop}
use libamp.Box.Serialize.Length.{serialize_whole}

-- With memory for every block, a value that fits is stored.
pub put_buf-IsPlenty :
    (box : Box) (key buf : Bytes) (n : ℕ) (m : Memory)
    → IsValid box
    → good_key key ≡ true
    → n ≤ length buf
    → n ≤ 65535
    → IsPlenty m
    → (let put = put_buf box key buf (pos n) m in
        (put.0 ≡ 0)
        × IsValid put.1
        × IsPlenty put.2
        × ((j : Bytes)
            → get_buf put.1 j ≡ (if str_eq j key then ok (take n buf, n) else get_buf box j)))
put_buf-IsPlenty box key buf n m v good fits small plenty =
    let first = plenty m.calls in
    let second = plenty (m.calls + 1) in
    let done : (put_buf box key buf (pos n) m).0 ≡ 0 =
      put_buf_code box key buf (pos n) m ∙ ground (arith, good, small, first, second) in
    (
      done,
      put_buf-IsValid box key buf (pos n) m v fits,
      IsPlenty-after m (put_buf box key buf (pos n) m).2 (put_buf_succeeds box key buf n m) plenty,
      put_buf-lookup box key buf (pos n) m v done,
    )

find-none : (key : Bytes) (es : List KeyValue) → length es ≡ 0 → find box_key key_of key es ≡ none
unfolding find
find-none key [] h = refl
find-none key (e ∷ es) h = absurd (omega arith)

-- A box with a key is not empty.
pub found-length :
    (box : Box) (key : Bytes) (value : Bytes × ℕ)
    → IsValid box
    → get_buf box key ≡ ok value
    → box.length ≢ 0
unfolding get_buf
found-length box key value v found bare =
    let nothing = find-none key (flatten box.buckets) (v.counted ∙ bare) in
    let there = find-flatten box_key key_of box.buckets key v.sound in
    absurd (ground (arith, nothing, there, found))

-- It is serialized.
pub found_serialized :
    (box : Box) (key : Bytes) (value : Bytes × ℕ) (m : Memory)
    → IsValid box
    → IsPlenty m
    → get_buf box key ≡ ok value
    → (bytes : Bytes) × ((amp_serialize_box box m).0 ≡ ok (bytes, length bytes))
found_serialized box key value m v plenty found =
    let wrote = serialize_whole box m v in
    let got = plenty m.calls in
    let full : (box.length == 0) ≡ false = ground (arith, found-length box key value v found) in
    let bytes = write_loop (flatten box.buckets) in (bytes, wrote ∙ rw (full, got) refl)

pub malloc_got : (m : Memory) → IsPlenty m → (malloc m).0 ≡ true
unfolding malloc
malloc_got m plenty = let got = plenty m.calls in ground (arith, got)

pub new_box_got : (m : Memory) → IsPlenty m → (amp_new_box m).0 ≡ some empty_box
unfolding amp_new_box malloc
new_box_got m plenty = let got = plenty m.calls in ground (arith, got)
