-- ===== src/Types/Decimal.antt =====
-- The conversions %u, %d and %lld of printf, as types.c calls them, and their laws.
use libamp.Common.{
  ℕ, zero, suc, ◌+◌, ◌-◌, ◌*◌, ◌/◌, ◌%◌, ◌^◌, ◌<◌, ◌≤◌, ◌≡◌, refl, ◌∙◌, arith, true, [], ◌∷◌, ◌++◌,
  length, ltb, if◌then◌else◌, All, length-append, Bool-cases, inl, inr,
}
use native.Mathlib.Nat.{pow-suc}
use libamp.Common.Int.{ℤ, pos, negsuc}
use libamp.CString.{Bytes}
use libamp.Hashing.Buckets.{All-append}
use libamp.Buftoll.Correct.{IsDigit, value_from, value}

-- The digits of a number below 10 ^ fuel.
unfoldable pub decimal : ℕ → ℕ → Bytes
decimal zero n = []
decimal (suc fuel) n =
    let front = decimal fuel (n / 10) in
    if ltb n 10 then (b'0' + n) ∷ [] else front ++ (b'0' + n % 10) ∷ []

-- No C integer has more than 20 digits.
unfoldable pub show_ℕ : ℕ → Bytes
unfolding decimal
show_ℕ n = decimal 20 n

unfoldable pub show_ℤ : ℤ → Bytes
unfolding show_ℕ
show_ℤ (pos n) = show_ℕ n
show_ℤ (negsuc n) = b'-' ∷ show_ℕ (suc n)

value_from-append : (s t : Bytes) (m : ℕ) → value_from m (s ++ t) ≡ value_from (value_from m s) t
value_from-append [] t m = refl
value_from-append (b ∷ s) t m = value_from-append s t (m * 10 + (b - b'0'))

tenth_lt : (fuel n : ℕ) → n < 10 ^ suc fuel → n / 10 < 10 ^ fuel
tenth_lt fuel n h = omega (arith, pow-suc 10 fuel)

-- The digits spell the number.
pub value-decimal : (fuel n : ℕ) → n < 10 ^ fuel → value (decimal fuel n) ≡ n
unfolding decimal
value-decimal zero n h = omega arith
value-decimal (suc fuel) n h = elim (Bool-cases (ltb n 10)) [
  | inl e ↦ rw (e, decimal) (omega arith)
  | inr e ↦
      let front = value-decimal fuel (n / 10) (tenth_lt fuel n h) in
      rw (e, decimal)
        (value_from-append (decimal fuel (n / 10)) ((b'0' + n % 10) ∷ []) 0 ∙ omega (arith, front))
]

pub decimal_digits : (fuel n : ℕ) → All IsDigit (decimal fuel n)
unfolding decimal
decimal_digits zero n = tt
decimal_digits (suc fuel) n = elim (Bool-cases (ltb n 10)) [
  | inl e ↦ rw (e, decimal) (let small : n < 10 = ground arith in omega arith)
  | inr e ↦ rw (e, decimal) (All-append IsDigit _ _ (decimal_digits fuel (n / 10)) (omega arith))
]

snoc_cons : (s : Bytes) (c : ℕ) → (b : ℕ) × (t : Bytes) × (s ++ c ∷ [] ≡ b ∷ t)
snoc_cons [] c = (c, [], refl)
snoc_cons (b ∷ s) c = (b, s ++ c ∷ [], refl)

-- There is a digit.
pub decimal_cons : (fuel n : ℕ) → (b : ℕ) × (s : Bytes) × (decimal (suc fuel) n ≡ b ∷ s)
unfolding decimal
decimal_cons fuel n = elim (Bool-cases (ltb n 10)) [
  | inl e ↦ (b'0' + n, [], rw e)
  | inr e ↦
      let (b, s, same) = snoc_cons (decimal fuel (n / 10)) (b'0' + n % 10) in (b, s, rw e same)
]

-- A number below 10 ^ k has at most k digits.
pub length-decimal : (fuel k n : ℕ) → n < 10 ^ k → 0 < k → length (decimal fuel n) ≤ k
unfolding decimal
length-decimal zero k n h p = omega arith
length-decimal (suc fuel) zero n h p = absurd (omega arith)
length-decimal (suc fuel) (suc zero) n h p =
    let small : ltb n 10 ≡ true = ground arith in rw (small, decimal) (omega arith)
length-decimal (suc fuel) (suc (suc k)) n h p = elim (Bool-cases (ltb n 10)) [
  | inl e ↦ rw (e, decimal) (omega arith)
  | inr e ↦
      let front = length-decimal fuel (suc k) (n / 10) (tenth_lt (suc k) n h) (omega arith) in
      rw (e, decimal)
        (omega (arith, front, length-append (decimal fuel (n / 10)) ((b'0' + n % 10) ∷ [])))
]
