-- ===== src/Types/Texts.antt =====
-- The texts of the integers in types.c, and what the getters make of them.
use libamp.Common.{
  ℕ, suc, ◌-◌, ◌^◌, ◌<◌, ◌≤◌, ◌≡◌, ◌≢◌, refl, sym, ap, ◌∙◌, arith, true, [], ◌∷◌, ◌++◌, length, All,
  take_all, subst,
}
use libamp.Common.Int.{ℤ, pos, negsuc, signed, ◌≤ℤ◌}
use libamp.CString.{Bytes, strlen}
use libamp.CString.Laws.{c_str_id, str_eq_refl}
use libamp.Memory.{Memory}
use libamp.Errors.{ok}
use libamp.Box.{Box, put_buf, get_buf}
use libamp.Box.Valid.{IsValid}
use libamp.Box.Put.{put_buf-lookup}
use libamp.Buftoll.{buftoll}
use libamp.Buftoll.Magnitude.{limit}
use libamp.Buftoll.Correct.{
  IsDigit, value, Sign, no_sign, minus, sign_bytes, is_minus, buftoll-digits,
}
use libamp.Types.{
  amp_get_int, amp_get_uint, amp_get_long_long, print_to, int_min, int_max, llong_buf_len,
  uint_buf_len,
}
use libamp.Types.Decimal.{
  decimal, show_ℕ, show_ℤ, value-decimal, decimal_digits, decimal_cons, length-decimal,
}

-- The text of a number below 10 ^ 20 is read back as that number, with the sign before it.
pub buftoll-decimal :
    (σ : Sign) (n : ℕ)
    → n < 10 ^ 20
    → n ≤ limit (is_minus σ)
    → buftoll (sign_bytes σ ++ decimal 20 n) ≡ ok (signed (is_minus σ) n)
buftoll-decimal σ n h fits =
    let (b, s, same) = decimal_cons 19 n in
    let digits = decimal_digits 20 n in
    let (d, ds) = subst (All IsDigit) same digits in
    let v : value (b ∷ s) ≡ n = sym (ap value same) ∙ value-decimal 20 n h in
    ap (λ t. buftoll (sign_bytes σ ++ t)) same ∙ buftoll-digits σ b s d ds ∙ ground (arith, v)

-- A `long long`.
abbrev pub IsLlong : ℤ → Type 0
IsLlong v = (negsuc (2 ^ 63 - 1) ≤ℤ v) × (v ≤ℤ pos (2 ^ 63 - 1))

abbrev pub magnitude : ℤ → ℕ
magnitude (pos n) = n
magnitude (negsuc n) = suc n

pub buftoll-show_ℤ : (v : ℤ) → IsLlong v → buftoll (show_ℤ v) ≡ ok v
unfolding show_ℤ show_ℕ
buftoll-show_ℤ (pos n) h = buftoll-decimal no_sign n (omega arith) (omega arith)
buftoll-show_ℤ (negsuc n) h =
    let e : signed true (suc n) ≡ negsuc n = ground arith in
    buftoll-decimal minus (suc n) (omega arith) (omega arith) ∙ ap ok e

-- The bytes of a number's text are no terminators.
pub digits_not_nul : (s : Bytes) → All IsDigit s → All (λ c. c ≢ 0) s
digits_not_nul [] h = tt
digits_not_nul (c ∷ s) h = (omega (arith, h.0), digits_not_nul s h.1)

-- A text that the buffer holds is the one that is read back.
pub text_read :
    (box : Box) (key text : Bytes) (buf_len : ℕ) (m : Memory)
    → All (λ c. c ≢ 0) text
    → length text < buf_len
    → IsValid box
    → (put_buf box key (print_to buf_len text) (pos (strlen (print_to buf_len text))) m).0 ≡ 0
    → get_buf
        (put_buf box key (print_to buf_len text) (pos (strlen (print_to buf_len text))) m).1
        key
      ≡ ok (text, length text)
unfolding strlen
text_read box key text buf_len m clean fits v done =
    let whole : print_to buf_len text ≡ text = take_all (buf_len - 1) text (omega arith) in
    let size : strlen text ≡ length text = unfold strlen in ap length (c_str_id text clean) in
    let back =
      put_buf-lookup box key (print_to buf_len text) (pos (strlen (print_to buf_len text))) m v done
        key in
    back ∙ rw (whole, size, str_eq_refl key, take_all (length text) text (omega arith)) refl

pub show_ℤ_not_nul : (v : ℤ) → All (λ c. c ≢ 0) (show_ℤ v)
unfolding show_ℤ show_ℕ
show_ℤ_not_nul (pos n) = digits_not_nul (decimal 20 n) (decimal_digits 20 n)
show_ℤ_not_nul (negsuc n) =
    (omega arith, digits_not_nul (decimal 20 (suc n)) (decimal_digits 20 (suc n)))

-- The digits of a magnitude below 10 ^ k, and a sign.
pub length-show_ℤ : (k : ℕ) (v : ℤ) → magnitude v < 10 ^ k → 0 < k → length (show_ℤ v) ≤ suc k
unfolding show_ℤ show_ℕ
length-show_ℤ k (pos n) h p = omega (arith, length-decimal 20 k n h p)
length-show_ℤ k (negsuc n) h p = omega (arith, length-decimal 20 k (suc n) h p)

pub llong_magnitude : (v : ℤ) → IsLlong v → magnitude v < 10 ^ 19
llong_magnitude (pos n) h = omega arith
llong_magnitude (negsuc n) h = omega arith

-- An `int`.
abbrev pub IsInt : ℤ → Type 0
IsInt v = (int_min ≤ℤ v) × (v ≤ℤ int_max)

pub int_magnitude : (v : ℤ) → IsInt v → magnitude v < 10 ^ 10
int_magnitude (pos n) h = omega arith
int_magnitude (negsuc n) h = omega arith

pub int-IsLlong : (v : ℤ) → IsInt v → IsLlong v
int-IsLlong (pos n) h = omega arith
int-IsLlong (negsuc n) h = omega arith

digits-small : (s : Bytes) → All IsDigit s → All (λ c. c < 256) s
digits-small [] h = tt
digits-small (c ∷ s) h = (omega (arith, h.0), digits-small s h.1)

show_ℤ-small : (v : ℤ) → All (λ c. c < 256) (show_ℤ v)
unfolding show_ℤ show_ℕ
show_ℤ-small (pos n) = digits-small (decimal 20 n) (decimal_digits 20 n)
show_ℤ-small (negsuc n) =
    (omega arith, digits-small (decimal 20 (suc n)) (decimal_digits 20 (suc n)))

-- A text that its buffer holds whole.
pub record IsWhole (buf_len : ℕ) (text : Bytes) : Type 0 where
  pub whole : print_to buf_len text ≡ text
  pub size : strlen text ≡ length text
  pub short : length text < buf_len
  pub octets : All (λ c. c < 256) text

text-IsWhole :
    (buf_len : ℕ) (text : Bytes)
    → All (λ c. c ≢ 0) text
    → All (λ c. c < 256) text
    → length text < buf_len
    → IsWhole buf_len text
unfolding strlen
text-IsWhole buf_len text clean octets short = record {
  whole = take_all (buf_len - 1) text (omega arith);
  size = ap length (c_str_id text clean);
  short = short;
  octets = octets;
}

pub uint-IsWhole : (v : ℕ) → v < 2 ^ 32 → IsWhole uint_buf_len (show_ℕ v)
unfolding show_ℕ
uint-IsWhole v h =
    let digits = decimal_digits 20 v in
    text-IsWhole uint_buf_len (decimal 20 v) (digits_not_nul (decimal 20 v) digits)
      (digits-small (decimal 20 v) digits)
      (omega (arith, length-decimal 20 10 v (omega arith) (omega arith)))

pub llong-IsWhole : (v : ℤ) → IsLlong v → IsWhole llong_buf_len (show_ℤ v)
llong-IsWhole v h =
    let short = length-show_ℤ 19 v (llong_magnitude v h) (omega arith) in
    text-IsWhole llong_buf_len (show_ℤ v) (show_ℤ_not_nul v) (show_ℤ-small v) (omega (arith, short))

-- What the getters make of a value that is the text of a number.
module _ (box : Box) (key s : Bytes) (found : get_buf box key ≡ ok (s, length s)) where
  pub read_long_long : (v : ℤ) → buftoll s ≡ ok v → amp_get_long_long box key ≡ ok v
  unfolding amp_get_long_long
  read_long_long v same =
      rw (found, amp_get_long_long) (rw (take_all (length s) s (omega arith)) same)

  pub read_int : (v : ℤ) → IsInt v → buftoll s ≡ ok v → amp_get_int box key ≡ ok v
  unfolding amp_get_int
  read_int v h same =
      rw (found, amp_get_int) (rw (take_all (length s) s (omega arith)) (ground (arith, same)))

  pub read_uint : (v : ℕ) → v < 2 ^ 32 → buftoll s ≡ ok (pos v) → amp_get_uint box key ≡ ok v
  unfolding amp_get_uint
  read_uint v h same =
      rw (found, amp_get_uint) (rw (take_all (length s) s (omega arith)) (ground (arith, same)))
