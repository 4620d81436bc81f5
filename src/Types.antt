-- ===== src/Types.antt =====
-- The typed access to boxes (types.c): bytes, C strings, booleans and the integer types.
pub mod Decimal
pub mod Texts
pub mod Integers
pub mod Stored
pub mod DateTime
pub mod Double
use libamp.Common.{
  ℕ, suc, ◌+◌, ◌-◌, ◌*◌, ◌/◌, ◌%◌, ◌^◌, Bool, true, false, ◌&&◌, ◌||◌, not, List, [], ◌∷◌, ◌++◌,
  take, length, ltb, leb, ◌==◌, if◌then◌else◌,
}
use libamp.Common.Int.{ℤ, pos, negsuc, leb_ℤ, eqb_ℤ, pos_part}
use libamp.CString.{Bytes, codes, strlen, bytes_eq}
use libamp.Memory.{Memory}
use libamp.Errors.{Result, ok, err, decode_error, out_of_range}
use libamp.Box.{Box, put_buf, get_buf}
use libamp.Buftoll.{buftoll}
use libamp.Types.Decimal.{show_ℕ, show_ℤ}

unfoldable pub amp_put_bytes : Box → Bytes → Bytes → ℤ → Memory → ℕ × Box × Memory
amp_put_bytes box key buf buf_size m = put_buf box key buf buf_size m

-- The value with its size.
unfoldable pub amp_get_bytes : Box → Bytes → Result (Bytes × ℕ)
amp_get_bytes box key = get_buf box key

unfoldable pub amp_put_cstring : Box → Bytes → Bytes → Memory → ℕ × Box × Memory
amp_put_cstring box key value m = put_buf box key value (pos (strlen value)) m

-- A C `int` is true unless it is 0.
unfoldable pub amp_put_bool : Box → Bytes → ℤ → Memory → ℕ × Box × Memory
amp_put_bool box key value m =
    let buf : Bytes = (if eqb_ℤ value (pos 0) then codes "False" else codes "True") in
    put_buf box key buf (pos (strlen buf)) m

unfoldable pub amp_get_bool : Box → Bytes → Result ℕ
amp_get_bool box key = elim (get_buf box key) [
  | err e ↦ err e
  | ok (buf, buf_size) ↦
      if buf_size == 4 && bytes_eq (take buf_size buf) (codes "True")
      then ok 1
      else if buf_size == 5 && bytes_eq (take buf_size buf) (codes "False")
      then ok 0
      else err decode_error
]

-- `snprintf(buf, bufLen, …)` leaves at most `bufLen - 1` bytes before the terminator.
abbrev pub print_to : ℕ → Bytes → Bytes
print_to buf_len text = take (buf_len - 1) text

-- `(int)(log10(pow(2, 64))) + 3`
abbrev pub llong_buf_len : ℕ
llong_buf_len = 22

-- `(int)(log10(pow(2, 32))) + 3`
abbrev pub int_buf_len : ℕ
int_buf_len = 12

-- `(int)(log10(pow(2, 32))) + 2`
abbrev pub uint_buf_len : ℕ
uint_buf_len = 11

unfoldable pub amp_put_long_long : Box → Bytes → ℤ → Memory → ℕ × Box × Memory
amp_put_long_long box key value m =
    let buf = print_to llong_buf_len (show_ℤ value) in put_buf box key buf (pos (strlen buf)) m

unfoldable pub amp_get_long_long : Box → Bytes → Result ℤ
amp_get_long_long box key = elim (get_buf box key) [
  | err e ↦ err e
  | ok (buf, buf_size) ↦ buftoll (take buf_size buf)
]

unfoldable pub amp_put_int : Box → Bytes → ℤ → Memory → ℕ × Box × Memory
amp_put_int box key value m =
    let buf = print_to int_buf_len (show_ℤ value) in put_buf box key buf (pos (strlen buf)) m

abbrev pub int_max : ℤ
int_max = pos (2 ^ 31 - 1)

abbrev pub int_min : ℤ
int_min = negsuc (2 ^ 31 - 1)

unfoldable pub amp_get_int : Box → Bytes → Result ℤ
amp_get_int box key = elim (get_buf box key) [
  | err e ↦ err e
  | ok (buf, buf_size) ↦ elim (buftoll (take buf_size buf)) [
    | err e ↦ err e
    | ok tmp ↦ if leb_ℤ int_min tmp && leb_ℤ tmp int_max then ok tmp else err out_of_range
  ]
]

abbrev pub uint_max : ℤ
uint_max = pos (2 ^ 32 - 1)

unfoldable pub amp_put_uint : Box → Bytes → ℕ → Memory → ℕ × Box × Memory
amp_put_uint box key value m =
    let buf = print_to uint_buf_len (show_ℕ value) in put_buf box key buf (pos (strlen buf)) m

-- The conversion to `unsigned int` is of a number in its range.
unfoldable pub amp_get_uint : Box → Bytes → Result ℕ
amp_get_uint box key = elim (get_buf box key) [
  | err e ↦ err e
  | ok (buf, buf_size) ↦ elim (buftoll (take buf_size buf)) [
    | err e ↦ err e
    | ok tmp ↦
        if leb_ℤ (pos 0) tmp && leb_ℤ tmp uint_max then ok (pos_part tmp) else err out_of_range
  ]
]
