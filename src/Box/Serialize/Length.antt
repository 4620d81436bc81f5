-- ===== src/Box/Serialize/Length.antt =====
-- The buffer that amp_serialize_box (box.c) allocates is filled exactly.
use libamp.Common.{
  ℕ, ◌+◌, ◌*◌, ◌/◌, ◌%◌, ◌≤◌, ◌≡◌, refl, ap, ◌∙◌, some, arith, All, length, List, [], ◌∷◌, ◌++◌,
  take_all, length-append, if◌then◌else◌, ◌==◌,
}
use libamp.Memory.{Memory}
use libamp.Hashing.Buckets.{flatten, All-flatten}
use libamp.Errors.{ok, err, box_empty, enomem}
use libamp.Box.{Box, KeyValue}
use libamp.Box.Valid.{IsEntry, IsValid}
use libamp.Box.Serialize.{size_loop, int_size_loop, write_pair, write_loop, amp_serialize_box}

-- A well-formed entry is copied whole.
pub write_pair_exact :
    (p : KeyValue)
    → IsEntry p
    → write_pair p
      ≡ 0 ∷ (length p.key) ∷ (p.key ++ (length p.value / 256) ∷ (length p.value % 256) ∷ p.value)
unfolding write_pair
write_pair_exact p v =
    let small : p.key_size % 256 ≡ length p.key = omega arith in
    let high : p.value_size / 256 % 256 ≡ length p.value / 256 = omega arith in
    let low : p.value_size % 256 ≡ length p.value % 256 = omega arith in
    rw (
      small,
      high,
      low,
      take_all p.key_size p.key (omega arith),
      take_all p.value_size p.value (omega arith),
    )

pub length-write_pair :
    (p : KeyValue) → IsEntry p → length (write_pair p) ≡ 4 + p.key_size + p.value_size
length-write_pair p v = rw (write_pair_exact p v) (rw length-append (omega arith))

size_loop-write_loop :
    (c : List KeyValue) (n : ℕ) → All IsEntry c → size_loop c n + 2 ≡ n + length (write_loop c)
unfolding size_loop write_loop
size_loop-write_loop [] n v = omega arith
size_loop-write_loop (p ∷ c) n v = rw length-append (
    omega (
      arith,
      size_loop-write_loop c (n + (4 + p.key_size + p.value_size)) v.1,
      length-write_pair p v.0,
    ))

write_loop-size : (c : List KeyValue) → All IsEntry c → size_loop c 2 ≡ length (write_loop c)
write_loop-size c v = omega (arith, size_loop-write_loop c 2 v)

size_loop_pos : (c : List KeyValue) (n : ℕ) → n + 4 * length c ≤ size_loop c n
unfolding size_loop
size_loop_pos [] n = omega arith
size_loop_pos (p ∷ c) n = omega (arith, size_loop_pos c (n + (4 + p.key_size + p.value_size)))

size_loop_nil : (c : List KeyValue) → (size_loop c 2 == 2) ≡ (length c == 0)
unfolding size_loop
size_loop_nil [] = refl
size_loop_nil (p ∷ c) = ground (arith, size_loop_pos c (2 + (4 + p.key_size + p.value_size)))

size_loop_empty :
    (box : Box) → IsValid box → (size_loop (flatten box.buckets) 2 == 2) ≡ (box.length == 0)
size_loop_empty box v = ground (arith, size_loop_nil (flatten box.buckets), v.counted)

-- With a size that no int bounds, amp_serialize_box fills its buffer whatever the packet's length.
pub serialize_whole :
    (box : Box) (m : Memory)
    → IsValid box
    → (amp_serialize_box box m).0 ≡ (
        if box.length == 0
        then err box_empty
        else if m.succeeds m.calls
        then ok (write_loop (flatten box.buckets), length (write_loop (flatten box.buckets)))
        else err enomem)
unfolding amp_serialize_box
serialize_whole box m v = ground (
  arith,
  size_loop_empty box v,
  write_loop-size (flatten box.buckets) (All-flatten IsEntry box.buckets v.entries),
)

-- An int holds the sums as long as it holds the last one.
int_size_loop_lem :
    (c : List KeyValue) (n : ℕ)
    → size_loop c n ≤ 2147483647
    → int_size_loop c n ≡ some (size_loop c n)
unfolding int_size_loop size_loop
int_size_loop_lem [] n fits = refl
int_size_loop_lem (p ∷ c) n fits =
    let next = n + (4 + p.key_size + p.value_size) in
    ground (arith, size_loop_pos c next, int_size_loop_lem c next fits)

-- For a well-formed box whose packet has at most INT_MAX bytes, the int in which amp_serialize_box
-- adds up the size does not overflow and comes to the number of bytes that the code then writes.
-- amp_serialize_box answers AMP_BOX_EMPTY exactly for a box with no key, and otherwise ENOMEM
-- exactly if the allocation fails; else it gives these bytes and this size.
pub serialize_fills :
    (box : Box) (m : Memory)
    → IsValid box
    → length (write_loop (flatten box.buckets)) ≤ 2147483647
    → (int_size_loop (flatten box.buckets) 2 ≡ some (length (write_loop (flatten box.buckets))))
      × ((amp_serialize_box box m).0 ≡ (
          if box.length == 0
          then err box_empty
          else if m.succeeds m.calls
          then ok (write_loop (flatten box.buckets), length (write_loop (flatten box.buckets)))
          else err enomem))
serialize_fills box m v fits =
    let es = flatten box.buckets in
    let total = write_loop-size es (All-flatten IsEntry box.buckets v.entries) in
    (int_size_loop_lem es 2 (omega (arith, total, fits)) ∙ ap some total, serialize_whole box m v)
