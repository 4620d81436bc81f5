-- ===== src/Types/DateTime/Padded.antt =====
-- The text of the fields of a date-time (types.c), and what buftoll_range reads in it.
use libamp.Common.{
  ℕ, zero, suc, ◌-◌, ◌^◌, ◌<◌, ◌≡◌, refl, ◌∙◌, arith, false, [], ◌∷◌, ◌++◌, length, replicate, All,
  length-append, length-replicate,
}
use libamp.Common.Int.{ℤ, pos, negsuc}
use libamp.CString.{Bytes}
use libamp.Errors.{ok}
use libamp.Hashing.Buckets.{All-append}
use libamp.Buftoll.{buftoll, buftoll_range}
use libamp.Buftoll.Correct.{IsDigit, value, no_sign, buftoll-digits}
use libamp.Types.Decimal.{decimal, show_ℕ, value-decimal, decimal_digits, length-decimal}
use libamp.Types.DateTime.{show_padded, outside}

zeros_digits : (n : ℕ) → All IsDigit (replicate n b'0')
zeros_digits zero = tt
zeros_digits (suc n) = (omega arith, zeros_digits n)

value-zeros : (n : ℕ) (s : Bytes) → value (replicate n b'0' ++ s) ≡ value s
value-zeros zero s = refl
value-zeros (suc n) s = value-zeros n s

-- A text of digits is read back, if the number fits.
digits_read :
    (s : Bytes) (n : ℕ)
    → 0 < length s
    → All IsDigit s
    → value s ≡ n
    → n < 10 ^ 18
    → buftoll s ≡ ok (pos n)
digits_read [] n some h v fits = absurd (omega arith)
digits_read (b ∷ s) n some h v fits =
    let read = buftoll-digits no_sign b s h.0 h.1 in ground (arith, read)

-- The text of a field is as wide as it should be, and read back, in a range of numbers that the
-- width has room for.
pub padded_read :
    (k lo hi : ℕ) (v : ℤ)
    → 0 < k
    → hi < 10 ^ 6
    → hi < 10 ^ k
    → outside v (pos lo) (pos hi) ≡ false
    → (length (show_padded k v) ≡ k) × (buftoll_range (show_padded k v) (pos lo) (pos hi) ≡ ok v)
unfolding show_padded show_ℕ buftoll_range
padded_read k lo hi (negsuc n) some few room inside = absurd (ground arith)
padded_read k lo hi (pos n) some few room inside =
    let zeros : Bytes = replicate (k - length (decimal 20 n)) b'0' in
    let small : n < 10 ^ k = ground arith in
    let fits : n < 10 ^ 6 = ground arith in
    let short = length-decimal 20 k n small some in
    let width : length (zeros ++ decimal 20 n) ≡ k = omega (
      arith,
      short,
      length-append zeros (decimal 20 n),
      length-replicate {A = ℕ} (k - length (decimal 20 n)) b'0',
    ) in
    let digits =
      All-append IsDigit zeros (decimal 20 n) (zeros_digits (k - length (decimal 20 n)))
        (decimal_digits 20 n) in
    let spelled =
      value-zeros (k - length (decimal 20 n)) (decimal 20 n) ∙ value-decimal 20 n (omega arith) in
    let read = digits_read (zeros ++ decimal 20 n) n (omega arith) digits spelled (omega arith) in
    (width, ground (arith, read))
