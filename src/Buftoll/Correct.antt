-- ===== src/Buftoll/Correct.antt =====
-- What buftoll (buftoll.c) accepts, and the number that it returns.
use libamp.Common.{
  ℕ, ◌+◌, ◌-◌, ◌*◌, ◌≤◌, ◌≡◌, ◌≢◌, refl, sym, ap, ◌∙◌, arith, Bool, true, false, [], ◌∷◌, ◌++◌, ltb,
  if◌then◌else◌, Bool-cases, inl, inr, All, ◌==◌,
}
use libamp.Common.Int.{ℤ, pos, signed}
use libamp.CString.{Bytes}
use libamp.Errors.{Result, ok, err, out_of_range}
use libamp.Buftoll.{digits_loop, buftoll}
use libamp.Buftoll.Magnitude.{limit, magnitude_loop, with_sign, digits_loop-magnitude_loop}

abbrev pub IsDigit : ℕ → Type 0
IsDigit b = (b'0' ≤ b) × (b ≤ b'9')

-- The number that digits spell behind `m`, with no bound.
abbrev pub value_from : ℕ → Bytes → ℕ
value_from m [] = m
value_from m (b ∷ s) = value_from (m * 10 + (b - b'0')) s

abbrev pub value : Bytes → ℕ
value = value_from 0

-- The ways to write a sign.
pub data Sign : Type 0 where
  no_sign plus minus : Sign

abbrev pub sign_bytes : Sign → Bytes
sign_bytes no_sign = []
sign_bytes plus = b'+' ∷ []
sign_bytes minus = b'-' ∷ []

abbrev pub is_minus : Sign → Bool
is_minus minus = true
is_minus _ = false

le-value_from : (m : ℕ) (s : Bytes) → m ≤ value_from m s
le-value_from m [] = omega arith
le-value_from m (b ∷ s) = omega (arith, le-value_from (m * 10 + (b - b'0')) s)

magnitude_complete :
    (neg : Bool) (m : ℕ) (b : ℕ) (s : Bytes) (any : Bool)
    → IsDigit b
    → All IsDigit s
    → magnitude_loop neg m any (b ∷ s) ≡ (
        if ltb (limit neg) (value_from m (b ∷ s))
        then err out_of_range
        else ok (value_from m (b ∷ s)))
unfolding magnitude_loop
magnitude_complete neg m b [] any d h = ground arith
magnitude_complete neg m b (b' ∷ s) any d h = ground (
  arith,
  magnitude_complete neg (m * 10 + (b - b'0')) b' s true h.0 h.1,
  le-value_from (m * 10 + (b - b'0')) (b' ∷ s),
)

buftoll-sign :
    (σ : Sign) (b : ℕ) (s : Bytes)
    → IsDigit b
    → buftoll (sign_bytes σ ++ b ∷ s) ≡ digits_loop (is_minus σ) (pos 0) false (b ∷ s)
unfolding buftoll
buftoll-sign no_sign b s d = ground arith
buftoll-sign plus b s d = refl
buftoll-sign minus b s d = refl

signed_zero : (neg : Bool) → signed neg 0 ≡ pos 0
signed_zero true = refl
signed_zero false = refl

loop_magnitude :
    (neg : Bool) (s : Bytes)
    → digits_loop neg (pos 0) false s ≡ with_sign neg (magnitude_loop neg 0 false s)
loop_magnitude neg s =
    ap (λ z. digits_loop neg z false s) (sym (signed_zero neg))
    ∙ digits_loop-magnitude_loop neg 0 false s (omega arith)

-- On an optional sign and one or more digits, buftoll answers AMP_OUT_OF_RANGE exactly if the number
-- that they spell is not a `long long`, and otherwise returns that number.
pub buftoll-digits :
    (σ : Sign) (b : ℕ) (s : Bytes)
    → IsDigit b
    → All IsDigit s
    → buftoll (sign_bytes σ ++ b ∷ s) ≡ (
        if ltb (limit (is_minus σ)) (value (b ∷ s))
        then err out_of_range
        else ok (signed (is_minus σ) (value (b ∷ s))))
buftoll-digits σ b s d h =
    let complete = magnitude_complete (is_minus σ) 0 b s false d h in
    buftoll-sign σ b s d ∙ loop_magnitude (is_minus σ) (b ∷ s) ∙ ground (arith, complete)

magnitude_sound :
    (neg : Bool) (m : ℕ) (any : Bool) (s : Bytes) (r : ℕ)
    → m ≤ limit neg
    → magnitude_loop neg m any s ≡ ok r
    → All IsDigit s × (r ≡ value_from m s) × (r ≤ limit neg)
unfolding magnitude_loop
magnitude_sound neg m any [] r h e = ground arith
magnitude_sound neg m any (b ∷ s) r h e =
    ground (arith, magnitude_sound neg (m * 10 + (b - b'0')) true s r)

magnitude_empty : (neg : Bool) (s : Bytes) (r : ℕ) → magnitude_loop neg 0 false s ≡ ok r → s ≢ []
unfolding magnitude_loop
magnitude_empty neg [] r e = cc
magnitude_empty neg (b ∷ s) r e = cc

-- The loop behind a sign.
loop_sound :
    (σ : Sign) (s : Bytes) (v : ℤ)
    → digits_loop (is_minus σ) (pos 0) false s ≡ ok v
    → (s ≢ [])
      × All IsDigit s
      × (v ≡ signed (is_minus σ) (value s))
      × (value s ≤ limit (is_minus σ))
loop_sound σ s v e = go (magnitude_loop (is_minus σ) 0 false s) refl
  where
    go :
        (r : Result ℕ)
        → magnitude_loop (is_minus σ) 0 false s ≡ r
        → (s ≢ [])
          × All IsDigit s
          × (v ≡ signed (is_minus σ) (value s))
          × (value s ≤ limit (is_minus σ))
    go (err x) q =
        let bad = sym (loop_magnitude (is_minus σ) s ∙ ap (with_sign (is_minus σ)) q) ∙ e in
        absurd (cc bad)
    go (ok r) q =
        let (digits, same, fits) = magnitude_sound (is_minus σ) 0 false s r (omega arith) q in
        let good = sym (loop_magnitude (is_minus σ) s ∙ ap (with_sign (is_minus σ)) q) ∙ e in
        (magnitude_empty (is_minus σ) s r q, digits, ground (arith, good), omega arith)

-- What buftoll accepts is an optional sign and one or more digits, nothing else, and the result is
-- the number that they spell, within the range of `long long`: nothing wraps around.
pub buftoll_sound :
    (text : Bytes) (v : ℤ)
    → buftoll text ≡ ok v
    → (σ : Sign) × (digits : Bytes) × (text ≡ sign_bytes σ ++ digits)
      × (digits ≢ [])
      × All IsDigit digits
      × (v ≡ signed (is_minus σ) (value digits))
      × (value digits ≤ limit (is_minus σ))
unfolding buftoll
buftoll_sound [] v e = absurd (cc)
buftoll_sound (c ∷ s) v e = elim (Bool-cases (c == b'+')) [
  | inl p ↦
      let (n, d, same, fits) = loop_sound plus s v (ground arith) in
      (plus, s, ground arith, n, d, same, fits)
  | inr no_plus ↦ elim (Bool-cases (c == b'-')) [
    | inl p ↦
        let (n, d, same, fits) = loop_sound minus s v (ground arith) in
        (minus, s, ground arith, n, d, same, fits)
    | inr no_minus ↦
        let (n, d, same, fits) = loop_sound no_sign (c ∷ s) v (ground arith) in
        (no_sign, c ∷ s, refl, n, d, same, fits)
  ]
]
