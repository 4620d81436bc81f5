-- ===== src/Tests/Samples.antt =====
-- Sample data, and the definitions that a concrete run opens.
use libamp.Common.{ℕ, true, [], ◌∷◌, ◌++◌, arith}
use libamp.Common.Int.{pos}
use libamp.CString.{Bytes, codes, c_str, strlen, str_eq, bytes_eq, hash_string}
use libamp.Memory.{Memory, fresh_memory, malloc, release}
use libamp.Hashing.Chain.{find, replace, unlink}
use libamp.Hashing.Buckets.{home, bucket, view, flatten}
use libamp.Hashing.Writes.{link, rewrite, cut}
use libamp.Box.{
  Box, empty_box, put_buf, store, new_key_value, get_buf, amp_del_key, amp_has_key, has_key_loop,
}
use libamp.Box.Valid.{IsValid, empty_box-IsValid}
use libamp.Box.Octets.{HasBytes, empty_box-HasBytes, put_buf-HasBytes}
use libamp.Box.Put.{put_buf-IsValid}
use libamp.Box.Serialize.{amp_serialize_box, size_loop, write_loop, write_pair}

-- A concrete run opens these.
unfoldable pub box_program : Unit {0}
unfolding c_str strlen str_eq bytes_eq hash_string malloc release find replace unlink home bucket
    view flatten link rewrite cut empty_box put_buf store new_key_value get_buf amp_del_key
    amp_has_key has_key_loop amp_serialize_box size_loop write_loop write_pair
box_program = tt

-- An allocator that never fails.
abbrev pub plenty : Memory
plenty = fresh_memory (λ _. true)

abbrev pub sum_key : Bytes
sum_key = codes "sum"

abbrev pub sum_value : Bytes
sum_value = codes "42"

pub sample_put : ℕ × Box × Memory
sample_put = put_buf empty_box sum_key sum_value (pos 2) plenty

-- A box with one pair.
unfoldable pub sample_box : Box
unfolding sample_put
sample_box = sample_put.1

pub sample_box-IsValid : IsValid sample_box
unfolding sample_box
sample_box-IsValid =
    put_buf-IsValid empty_box sum_key sum_value (pos 2) plenty empty_box-IsValid (omega arith)

pub sample_box-HasBytes : HasBytes sample_box
unfolding sample_box sample_put
sample_box-HasBytes =
    put_buf-HasBytes empty_box sum_key sum_value (pos 2) plenty empty_box-HasBytes (omega arith)
      (omega arith)

-- The bytes of an _answer packet to the first request.
abbrev pub answer_bytes : Bytes
answer_bytes = 0 ∷ 7 ∷ codes "_answer" ++ 0 ∷ 1 ∷ b'1' ∷ 0 ∷ 0 ∷ []
