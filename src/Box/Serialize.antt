-- ===== src/Box/Serialize.antt =====
-- amp_serialize_box (box.c): the wire form of a box.
pub mod Length
use libamp.Common.{
  ℕ, ◌+◌, ◌/◌, ◌%◌, List, [], ◌∷◌, ◌++◌, take, ◌==◌, ltb, if◌then◌else◌, Option, none, some,
}
use libamp.CString.{Bytes}
use libamp.Memory.{Memory, malloc}
use libamp.Hashing.Buckets.{flatten}
use libamp.Errors.{Result, ok, err, box_empty, enomem}
use libamp.Box.{Box, KeyValue}

-- The first double loop: the bytes of all pairs, with four for their length prefixes, added up
-- without a bound. int_size_loop below has the bound of the source.
unfoldable pub size_loop : List KeyValue → ℕ → ℕ
size_loop [] size = size
size_loop (p ∷ c) size = size_loop c (size + (4 + p.key_size + p.value_size))

-- The same loop with `size` in an int of 32 bits, as the source declares it: `none` where a sum is
-- above INT_MAX, which in C is undefined.
unfoldable pub int_size_loop : List KeyValue → ℕ → Option ℕ
int_size_loop [] size = some size
int_size_loop (p ∷ c) size =
    let next = size + (4 + p.key_size + p.value_size) in
    let rest = int_size_loop c next in if ltb 2147483647 next then none else rest

-- What one round of the second double loop writes: the big-endian lengths, cast to char, each with
-- its data behind it.
unfoldable pub write_pair : KeyValue → Bytes
write_pair p =
    0
    ∷ (p.key_size % 256)
    ∷ (take p.key_size p.key
        ++ ((p.value_size / 256) % 256) ∷ (p.value_size % 256) ∷ take p.value_size p.value)

unfoldable pub write_loop : List KeyValue → Bytes
write_loop [] = 0 ∷ 0 ∷ []
write_loop (p ∷ c) = write_pair p ++ write_loop c

-- The allocated buffer and its size, for packets of at most INT_MAX bytes: above that the int of
-- the source overflows, and this definition does not. The loops go through the buckets in order.
unfoldable pub amp_serialize_box : Box → Memory → Result (Bytes × ℕ) × Memory
unfolding malloc
amp_serialize_box box m =
    let size = size_loop (flatten box.buckets) 2 in
    if size == 2
    then (err box_empty, m)
    else (let (got, m') = malloc m in
        if got then (ok (write_loop (flatten box.buckets), size), m') else (err enomem, m'))
