-- ===== src/Buftoll/Magnitude.antt =====
-- The loop of buftoll (buftoll.c) without signs: it decides the range exactly.
use libamp.Common.{
  ℕ, ◌+◌, ◌-◌, ◌*◌, ◌^◌, ◌≤◌, ◌≡◌, refl, arith, Bool, true, false, [], ◌∷◌, ltb, if◌then◌else◌,
  Bool-cases, inl, inr,
}
use libamp.Common.Int.{ℤ, pos, signed}
use libamp.CString.{Bytes}
use libamp.Errors.{Result, ok, err, decode_error, out_of_range}
use libamp.Buftoll.{is_digit, too_big, add_digit, digits_loop}

-- The greatest magnitude of a `long long` of the sign.
abbrev pub limit : Bool → ℕ
limit neg = if neg then 2 ^ 63 else 2 ^ 63 - 1

unfoldable pub magnitude_loop : Bool → ℕ → Bool → Bytes → Result ℕ
magnitude_loop neg m any [] = if any then ok m else err decode_error
magnitude_loop neg m any (b ∷ s) =
    let next = m * 10 + (b - b'0') in
    let rest = magnitude_loop neg next true s in
    if is_digit b then if ltb (limit neg) next then err out_of_range else rest else err decode_error

abbrev pub with_sign : Bool → Result ℕ → Result ℤ
with_sign neg (ok m) = ok (signed neg m)
with_sign neg (err e) = err e

-- The comparisons with the cutoff and its last digit decide whether one more digit fits.
too_big_pos :
    (m c : ℕ) → m ≤ limit false → c ≤ 9 → too_big false (pos m) c ≡ ltb (limit false) (m * 10 + c)
unfolding too_big
too_big_pos m c h k = ground arith

too_big_neg :
    (m c : ℕ)
    → m ≤ limit true
    → c ≤ 9
    → too_big true (signed true m) c ≡ ltb (limit true) (m * 10 + c)
unfolding too_big
too_big_neg m c h k = ground arith

add_digit-signed : (neg : Bool) (m c : ℕ) → add_digit neg (signed neg m) c ≡ signed neg (m * 10 + c)
unfolding add_digit
add_digit-signed true m c = ground arith
add_digit-signed false m c = ground arith

too_big-signed :
    (neg : Bool) (m c : ℕ)
    → m ≤ limit neg
    → c ≤ 9
    → too_big neg (signed neg m) c ≡ ltb (limit neg) (m * 10 + c)
too_big-signed true m c h k = too_big_neg m c h k
too_big-signed false m c h k = too_big_pos m c h k

-- The loop of buftoll is the loop without signs.
pub digits_loop-magnitude_loop :
    (neg : Bool) (m : ℕ) (any : Bool) (s : Bytes)
    → m ≤ limit neg
    → digits_loop neg (signed neg m) any s ≡ with_sign neg (magnitude_loop neg m any s)
unfolding digits_loop magnitude_loop
digits_loop-magnitude_loop neg m true [] h = refl
digits_loop-magnitude_loop neg m false [] h = refl
digits_loop-magnitude_loop neg m any (b ∷ s) h =
    let c = b - b'0' in
    elim (Bool-cases (is_digit b)) [
      | inr bad ↦ rw bad
      | inl digit ↦
          let small : c ≤ 9 = ground arith in
          rw (digit, too_big-signed neg m c h small)
            (elim (Bool-cases (ltb (limit neg) (m * 10 + c))) [
              | inl over ↦ rw over
              | inr fits ↦
                  rw (fits, add_digit-signed neg m c)
                    (digits_loop-magnitude_loop neg (m * 10 + c) true s (ground arith))
            ])
    ]
