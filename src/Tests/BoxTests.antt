-- ===== src/Tests/BoxTests.antt =====
-- The theorems on boxes, at the sample box.
use libamp.Common.{
  ◌+◌, ◌*◌, ◌≡◌, refl, arith, if◌then◌else◌, take, length, ◌==◌, not, ◌&&◌, ◌||◌, [], ◌∷◌, some,
}
use libamp.Common.Int.{pos}
use libamp.CString.{codes, str_eq}
use libamp.Errors.{ok, err, key_not_found, box_empty, enomem, bad_key_size, bad_val_size, is_ok}
use libamp.Hashing.Buckets.{flatten}
use libamp.Box.{empty_box, put_buf, get_buf, amp_del_key, amp_has_key}
use libamp.Box.Valid.{IsValid, empty_box-IsValid, has_key-get_buf}
use libamp.Box.Put.{
  put_buf-lookup, put_buf-IsValid, put_buf_code, put_buf_memory, good_key, good_size,
}
use libamp.Box.Delete.{del_key-lookup, del_key-IsValid}
use libamp.Box.Serialize.{amp_serialize_box, int_size_loop, write_loop}
use libamp.Box.Serialize.Length.{serialize_fills}
use libamp.Tests.Samples.{plenty, sum_key, sum_value, sample_box, sample_box-IsValid, box_program}

put_buf-lookup_example :
    get_buf (put_buf empty_box sum_key sum_value (pos 2) plenty).1 (codes "sum") ≡ (
      if str_eq (codes "sum") sum_key
      then ok (take 2 sum_value, 2)
      else get_buf empty_box (codes "sum"))
put_buf-lookup_example =
    put_buf-lookup empty_box sum_key sum_value (pos 2) plenty empty_box-IsValid
      (unfold box_program in refl) (codes "sum")

put_buf-IsValid_example : IsValid (put_buf sample_box (codes "total") sum_value (pos 2) plenty).1
put_buf-IsValid_example =
    put_buf-IsValid sample_box (codes "total") sum_value (pos 2) plenty sample_box-IsValid
      (omega arith)

put_buf_code_example : (put_buf sample_box (codes "sum") sum_value (pos 70000) plenty).0 ≡ (
    if not (good_key (codes "sum"))
    then bad_key_size
    else if not (good_size (pos 70000))
    then bad_val_size
    else if plenty.succeeds plenty.calls
        && (is_ok (get_buf sample_box (codes "sum")) || plenty.succeeds (plenty.calls + 1))
    then 0
    else enomem)
put_buf_code_example = put_buf_code sample_box (codes "sum") sum_value (pos 70000) plenty

put_buf_memory_example :
    (put_buf sample_box sum_key sum_value (pos 2) plenty).2.allocs
      + plenty.frees
      + 2 * sample_box.length
    ≡ plenty.allocs
      + (put_buf sample_box sum_key sum_value (pos 2) plenty).2.frees
      + 2 * (put_buf sample_box sum_key sum_value (pos 2) plenty).1.length
put_buf_memory_example = put_buf_memory sample_box sum_key sum_value (pos 2) plenty

del_key-lookup_example : get_buf (amp_del_key sample_box (codes "sum") plenty).1 (codes "sum") ≡ (
    if str_eq (codes "sum") (codes "sum")
    then err key_not_found
    else get_buf sample_box (codes "sum"))
del_key-lookup_example =
    del_key-lookup sample_box (codes "sum") plenty sample_box-IsValid (codes "sum")

del_key-IsValid_example : IsValid (amp_del_key sample_box (codes "sum") plenty).1
del_key-IsValid_example = del_key-IsValid sample_box (codes "sum") plenty sample_box-IsValid

serialize_fills_example :
    (int_size_loop (flatten sample_box.buckets) 2
      ≡ some (length (write_loop (flatten sample_box.buckets))))
    × ((amp_serialize_box sample_box plenty).0 ≡ (
        if sample_box.length == 0
        then err box_empty
        else if plenty.succeeds plenty.calls
        then ok (
          write_loop (flatten sample_box.buckets),
          length (write_loop (flatten sample_box.buckets)),
        )
        else err enomem))
unfolding sample_box
serialize_fills_example =
    serialize_fills sample_box plenty sample_box-IsValid (unfold box_program in omega arith)

has_key-get_buf_example :
    amp_has_key sample_box (codes "sum") ≡ is_ok (get_buf sample_box (codes "sum"))
has_key-get_buf_example = has_key-get_buf sample_box (codes "sum") sample_box-IsValid

-- The pair is found, and the wire form is two lengths with their data, and the terminator.
sample_found : get_buf sample_box (codes "sum") ≡ ok (codes "42", 2)
unfolding box_program sample_box
sample_found = refl

sample_wire :
    (amp_serialize_box sample_box plenty).0
    ≡ ok (0 ∷ 3 ∷ b's' ∷ b'u' ∷ b'm' ∷ 0 ∷ 2 ∷ b'4' ∷ b'2' ∷ 0 ∷ 0 ∷ [], 11)
unfolding box_program sample_box
sample_wire = refl
