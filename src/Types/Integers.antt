-- ===== src/Types/Integers.antt =====
-- The integers and booleans that types.c puts in to a box and gets out of it again.
use libamp.Common.{ℕ, ◌^◌, ◌<◌, ◌≡◌, refl, arith, if◌then◌else◌, Bool-cases, inl, inr}
use libamp.Common.Int.{ℤ, pos, eqb_ℤ}
use libamp.CString.{Bytes, codes, c_str, strlen, bytes_eq}
use libamp.CString.Laws.{str_eq_refl}
use libamp.Memory.{Memory}
use libamp.Errors.{ok}
use libamp.Box.{Box, put_buf}
use libamp.Box.Valid.{IsValid}
use libamp.Box.Put.{put_buf-lookup}
use libamp.Buftoll.Correct.{no_sign}
use libamp.Types.{
  amp_put_int, amp_get_int, amp_put_uint, amp_get_uint, amp_put_long_long, amp_get_long_long,
  amp_put_bool, amp_get_bool, llong_buf_len, int_buf_len, uint_buf_len,
}
use libamp.Types.Decimal.{decimal, show_ℕ, show_ℤ, decimal_digits, length-decimal}
use libamp.Types.Texts.{
  buftoll-decimal, IsLlong, IsInt, buftoll-show_ℤ, digits_not_nul, text_read, show_ℤ_not_nul,
  length-show_ℤ, llong_magnitude, int_magnitude, int-IsLlong, read_long_long, read_int, read_uint,
}

-- If amp_put_long_long answers 0 on a well-formed box, amp_get_long_long with the same key gives the
-- number back, for every `long long`: the buffer never cuts the text off.
pub get_long_long-put :
    (box : Box) (key : Bytes) (v : ℤ) (m : Memory)
    → IsLlong v
    → IsValid box
    → (amp_put_long_long box key v m).0 ≡ 0
    → amp_get_long_long (amp_put_long_long box key v m).1 key ≡ ok v
unfolding amp_put_long_long
get_long_long-put box key v m h valid done =
    let short = length-show_ℤ 19 v (llong_magnitude v h) (omega arith) in
    let back =
      text_read box key (show_ℤ v) llong_buf_len m (show_ℤ_not_nul v) (omega (arith, short)) valid
        done in
    read_long_long (amp_put_long_long box key v m).1 key (show_ℤ v) back v (buftoll-show_ℤ v h)

-- If amp_put_int answers 0 on a well-formed box, amp_get_int with the same key gives the number
-- back, for every `int`.
pub get_int-put :
    (box : Box) (key : Bytes) (v : ℤ) (m : Memory)
    → IsInt v
    → IsValid box
    → (amp_put_int box key v m).0 ≡ 0
    → amp_get_int (amp_put_int box key v m).1 key ≡ ok v
unfolding amp_put_int
get_int-put box key v m h valid done =
    let short = length-show_ℤ 10 v (int_magnitude v h) (omega arith) in
    let back =
      text_read box key (show_ℤ v) int_buf_len m (show_ℤ_not_nul v) (omega (arith, short)) valid
        done in
    read_int (amp_put_int box key v m).1 key (show_ℤ v) back v h
      (buftoll-show_ℤ v (int-IsLlong v h))

-- If amp_put_uint answers 0 on a well-formed box, amp_get_uint with the same key gives the number
-- back, for every `unsigned int`.
pub get_uint-put :
    (box : Box) (key : Bytes) (v : ℕ) (m : Memory)
    → v < 2 ^ 32
    → IsValid box
    → (amp_put_uint box key v m).0 ≡ 0
    → amp_get_uint (amp_put_uint box key v m).1 key ≡ ok v
unfolding amp_put_uint show_ℕ
get_uint-put box key v m h valid done =
    let text = show_ℕ v in
    let clean = digits_not_nul (decimal 20 v) (decimal_digits 20 v) in
    let short = length-decimal 20 10 v (omega arith) (omega arith) in
    let back =
      text_read box key (show_ℕ v) uint_buf_len m clean (omega (arith, short)) valid done in
    read_uint (amp_put_uint box key v m).1 key (show_ℕ v) back v h
      (buftoll-decimal no_sign v (omega arith) (omega arith))

-- What amp_get_bool makes of the word that is stored under a key.
get_bool-word :
    (box : Box) (key word : Bytes) (v : ℤ) (m : Memory)
    → word ≡ (if eqb_ℤ v (pos 0) then codes "False" else codes "True")
    → IsValid box
    → (put_buf box key word (pos (strlen word)) m).0 ≡ 0
    → amp_get_bool (put_buf box key word (pos (strlen word)) m).1 key
      ≡ ok (if eqb_ℤ v (pos 0) then 0 else 1)
unfolding amp_get_bool strlen c_str bytes_eq
get_bool-word box key word v m same valid done =
    let back = put_buf-lookup box key word (pos (strlen word)) m valid done key in
    elim (Bool-cases (eqb_ℤ v (pos 0))) [
      | inl e ↦ rw (back, amp_get_bool) (rw (str_eq_refl key, same, e) refl)
      | inr e ↦ rw (back, amp_get_bool) (rw (str_eq_refl key, same, e) refl)
    ]

-- If amp_put_bool answers 0 on a well-formed box, amp_get_bool with the same key gives 1 for every
-- value but 0, and 0 for 0.
pub get_bool-put :
    (box : Box) (key : Bytes) (v : ℤ) (m : Memory)
    → IsValid box
    → (amp_put_bool box key v m).0 ≡ 0
    → amp_get_bool (amp_put_bool box key v m).1 key ≡ ok (if eqb_ℤ v (pos 0) then 0 else 1)
unfolding amp_put_bool
get_bool-put box key v m valid done =
    get_bool-word box key (if eqb_ℤ v (pos 0) then codes "False" else codes "True") v m refl valid
      done
