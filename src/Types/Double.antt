-- ===== src/Types/Double.antt =====
-- Doubles (types.c): amp_put_double and amp_get_double. The numbers of C's type `double`, their
-- arithmetic and their text in printf are not the library's: they are a parameter.
pub mod Laws
pub mod Sound
use libamp.Common.{
  ℕ, ◌-◌, Bool, true, false, ◌&&◌, ◌||◌, not, [], ◌∷◌, ◌++◌, Option, none, some, length, take, ltb,
  ◌==◌, if◌then◌else◌,
}
use libamp.Common.Int.{ℤ, pos, negsuc}
use libamp.CString.{Bytes, codes, bytes_eq}
use libamp.Memory.{Memory, malloc}
use libamp.Errors.{Result, ok, err, decode_error, bad_key_size, bad_val_size}
use libamp.Box.{Box, put_buf, get_buf}
use libamp.Buftoll.{is_digit}

-- What the code takes from C: the constants 0.0, 0.1, INFINITY and NAN, the conversion from `int`,
-- the operators, the tests of math.h, and the text of "%.17f".
pub record Arithmetic (D : Type 0) : Type 0 where
  pub zero_point : D
  pub one_tenth : D
  pub infinity : D
  pub nan : D
  pub of_int : ℤ → D
  pub add : D → D → D
  pub sub : D → D → D
  pub mul : D → D → D
  pub div : D → D → D
  pub is_nan : D → Bool
  pub is_inf : D → Bool
  pub sign_bit : D → Bool
  pub print : D → Bytes

abbrev pub double_buf_len : ℕ
double_buf_len = 100

-- `acc`, `fractionFactor` and the flags of the loop in amp_get_double.
pub record Reading (D : Type 0) : Type 0 where
  pub got_dot : Bool
  pub any : Bool
  pub acc : D
  pub fraction_factor : D

module _ {D : Type 0} (ar : Arithmetic D) where
  -- The text, and the bytes that are put for it: those of special values are in the buffer without a
  -- terminator, and snprintf cuts a longer text off to make room for its own.
  abbrev pub double_text : D → Bytes
  double_text value =
      if ar.is_nan value
      then codes "nan"
      else if ar.is_inf value
      then if not (ar.sign_bit value) then codes "inf" else codes "-inf"
      else ar.print value

  -- The size is that of the whole text, as snprintf answers it. `none` is a copy of more bytes than
  -- the buffer has, which is made if the key is good and the first allocation succeeds.
  unfoldable pub amp_put_double : Box → Bytes → D → Memory → Option (ℕ × Box × Memory)
  amp_put_double box key value m =
      let text = double_text value in
      let buf_size = length text in
      let buf = take (double_buf_len - 1) text ++ 0 ∷ [] in
      let r = put_buf box key buf (pos buf_size) m in
      if ltb double_buf_len buf_size
        && not (r.0 == bad_key_size || r.0 == bad_val_size)
        && (malloc m).0
      then none
      else some r

  -- One round of the loop; `none` is AMP_DECODE_ERROR.
  unfoldable pub read_char : Bool → Reading D → ℕ → Option (Reading D)
  read_char neg r c =
      let digit = ar.of_int (pos (c - b'0')) in
      let scaled = ar.mul r.acc (ar.of_int (pos 10)) in
      let part = ar.mul digit r.fraction_factor in
      if is_digit c
      then if not r.got_dot
        then some (record r {
          any = true;
          acc = if neg then ar.sub scaled digit else ar.add scaled digit;
        })
        else some (record r {
          any = true;
          acc = if neg then ar.sub r.acc part else ar.add r.acc part;
          fraction_factor = ar.div r.fraction_factor (ar.of_int (pos 10));
        })
      else if c == b'.' && not r.got_dot && r.any
      then some (record r { got_dot = true })
      else none

  unfoldable pub double_loop : Bool → Reading D → Bytes → Result D
  double_loop neg r [] = if r.any then ok r.acc else err decode_error
  double_loop neg r (c ∷ s) = elim (read_char neg r c) [
    | none ↦ err decode_error
    | some r' ↦ double_loop neg r' s
  ]

  abbrev pub new_reading : Reading D
  new_reading = record {
    got_dot = false;
    any = false;
    acc = ar.zero_point;
    fraction_factor = ar.one_tenth;
  }

  unfoldable pub read_digits : Bytes → Result D
  read_digits [] = err decode_error
  read_digits (c ∷ s) =
      if c == b'+'
      then double_loop false new_reading s
      else if c == b'-'
      then double_loop true new_reading s
      else double_loop false new_reading (c ∷ s)

  -- The value of a text with its size.
  unfoldable pub read_double : Bytes → ℕ → Result D
  read_double text size =
      if ltb size 1
      then err decode_error
      else if size == 3 && bytes_eq text (codes "inf")
      then ok ar.infinity
      else if size == 3 && bytes_eq text (codes "nan")
      then ok ar.nan
      else if size == 4 && bytes_eq text (codes "-inf")
      then ok (ar.mul ar.infinity (ar.of_int (negsuc 0)))
      else read_digits text

  unfoldable pub amp_get_double : Box → Bytes → Result D
  amp_get_double box key = elim (get_buf box key) [
    | err e ↦ err e
    | ok (buf, buf_size) ↦ read_double (take buf_size buf) buf_size
  ]
