-- ===== src/Types/Double/Sound.antt =====
-- What amp_get_double (types.c) accepts.
use libamp.Common.{
  ℕ, ◌≡◌, ◌≢◌, ◌-◌, ◌⊎◌, refl, sym, ap, ◌∙◌, arith, subst, take, Bool, true, false, ◌&&◌, [], ◌∷◌,
  ◌++◌, Option, none, some, All, ◌==◌, Bool-cases, inl, inr,
}
use libamp.Common.Int.{pos, negsuc}
use libamp.CString.{Bytes, codes, bytes_eq}
use libamp.CString.Laws.{bytes_eq→eq}
use libamp.Errors.{ok, Result-cases}
use libamp.Box.{Box, get_buf}
use libamp.Buftoll.{is_digit}
use libamp.Buftoll.Correct.{IsDigit, Sign, no_sign, plus, minus, is_minus, sign_bytes}
use libamp.Types.Double.{
  Arithmetic, read_char, double_loop, read_digits, read_double, amp_get_double,
}
use libamp.Types.Double.Laws.{
  Numeral, IsNumeral, FractionDigits, fraction_bytes, numeral_bytes, numeral_value, away,
  whole_value, fraction_value, with_fraction, reading,
}

module _ {D : Type 0} (ar : Arithmetic D) where
  fraction_sound :
      (neg : Bool) (acc factor : D) (s : Bytes) (v : D)
      → double_loop ar neg (reading ar true true acc factor) s ≡ ok v
      → All IsDigit s × (v ≡ fraction_value ar neg acc factor s)
  unfolding double_loop read_char
  fraction_sound neg acc factor [] v e = (tt, ground (arith, e))
  fraction_sound neg acc factor (c ∷ s) v e = elim (Bool-cases (is_digit c)) [
    | inl d ↦
        let rest =
          fraction_sound neg (away ar neg acc (ar.mul (ar.of_int (pos (c - b'0'))) factor))
            (ar.div factor (ar.of_int (pos 10))) s v (ground (arith, d, e)) in
        ((ground (arith, d), rest.0), rest.1)
    | inr d ↦ absurd (ground (arith, d, e))
  ]

  -- What is left of a numeral's whole digits, and its fraction.
  Rest : Bool → Bool → D → Bytes → D → Type 0
  Rest any neg acc s v =
      (w : Bytes) × (f : Option Bytes) × (s ≡ w ++ fraction_bytes f)
      × All IsDigit w
      × FractionDigits f
      × (v ≡ with_fraction ar neg (whole_value ar neg acc w) f)
      × (any ≡ false → w ≢ [])

  whole_sound :
      (neg any : Bool) (acc : D) (s : Bytes) (v : D)
      → double_loop ar neg (reading ar false any acc ar.one_tenth) s ≡ ok v
      → Rest any neg acc s v
  unfolding double_loop read_char Rest
  whole_sound neg any acc [] v e =
      ([], none, refl, tt, tt, ground (arith, e), λ a. absurd (ground (arith, a, e)))
  whole_sound neg any acc (c ∷ s) v e = elim (Bool-cases (is_digit c)) [
    | inl d ↦
        let next = away ar neg (ar.mul acc (ar.of_int (pos 10))) (ar.of_int (pos (c - b'0'))) in
        let (w, f, same, h, g, value, some_left) =
          whole_sound neg true next s v (ground (arith, d, e)) in
        (c ∷ w, f, ap (λ t. c ∷ t) same, (ground (arith, d), h), g, value, λ a p. cc p)
    | inr d ↦ elim (Bool-cases (c == b'.' && any)) [
      | inl p ↦
          let rest = fraction_sound neg acc ar.one_tenth s v (ground (arith, d, p, e)) in
          ([], some s, ground (arith, p), tt, rest.0, rest.1, λ a. absurd (ground (arith, p, a)))
      | inr p ↦ absurd (ground (arith, d, p, e))
    ]
  ]

  -- A text that spells a number.
  abbrev pub Spells : Bytes → D → Type 0
  Spells text v = (n : Numeral) × IsNumeral n × (text ≡ numeral_bytes n) × (v ≡ numeral_value ar n)

  Rest-Spells :
      (σ : Sign) (neg : Bool) (s : Bytes) (v : D)
      → neg ≡ is_minus σ
      → Rest false neg ar.zero_point s v
      → Spells (sign_bytes σ ++ s) v
  unfolding Rest
  Rest-Spells σ neg s v minus_same ([], f, same, h, g, value, some_left) =
      absurd (some_left refl refl)
  Rest-Spells σ neg s v minus_same (c ∷ w, f, same, h, g, value, some_left) = (
    record { sign = σ; first = c; whole = w; fraction = f },
    (h.0, h.1, g),
    ap (λ t. sign_bytes σ ++ t) same,
    value ∙ ap (λ b. with_fraction ar b (whole_value ar b ar.zero_point (c ∷ w)) f) minus_same,
  )

  signed_sound :
      (σ : Sign) (neg : Bool) (s : Bytes) (v : D)
      → neg ≡ is_minus σ
      → double_loop ar neg (reading ar false false ar.zero_point ar.one_tenth) s ≡ ok v
      → Spells (sign_bytes σ ++ s) v
  signed_sound σ neg s v same e =
      Rest-Spells σ neg s v same (whole_sound neg false ar.zero_point s v e)

  digits_sound : (text : Bytes) (v : D) → read_digits ar text ≡ ok v → Spells text v
  unfolding read_digits
  digits_sound [] v e = absurd (cc e)
  digits_sound (c ∷ s) v e = elim (Bool-cases (c == b'+')) [
    | inl p ↦
        let found = signed_sound plus false s v refl (ground (arith, p, e)) in
        let same : c ≡ b'+' = ground (arith, p) in subst (λ x. Spells (x ∷ s) v) (sym same) found
    | inr p ↦ elim (Bool-cases (c == b'-')) [
      | inl q ↦
          let found = signed_sound minus true s v refl (ground (arith, p, q, e)) in
          let same : c ≡ b'-' = ground (arith, q) in subst (λ x. Spells (x ∷ s) v) (sym same) found
      | inr q ↦ signed_sound no_sign false (c ∷ s) v refl (ground (arith, p, q, e))
    ]
  ]

  -- What the text of a double may be.
  abbrev pub Accepted : Bytes → D → Type 0
  Accepted text v =
      ((text ≡ codes "inf") × (v ≡ ar.infinity))
      ⊎ ((text ≡ codes "nan") × (v ≡ ar.nan))
      ⊎ ((text ≡ codes "-inf") × (v ≡ ar.mul ar.infinity (ar.of_int (negsuc 0))))
      ⊎ Spells text v

  read_double_sound :
      (text : Bytes) (size : ℕ) (v : D) → read_double ar text size ≡ ok v → Accepted text v
  unfolding read_double
  read_double_sound text size v e = elim (Bool-cases (size == 3 && bytes_eq text (codes "inf"))) [
    | inl p ↦ inl (bytes_eq→eq text (codes "inf") (ground (arith, p)), ground (arith, p, e))
    | inr p ↦ elim (Bool-cases (size == 3 && bytes_eq text (codes "nan"))) [
      | inl q ↦
          inr (inl (bytes_eq→eq text (codes "nan") (ground (arith, q)), ground (arith, p, q, e)))
      | inr q ↦ elim (Bool-cases (size == 4 && bytes_eq text (codes "-inf"))) [
        | inl r ↦ inr (
            inr (
              inl
                (bytes_eq→eq text (codes "-inf") (ground (arith, r)), ground (arith, p, q, r, e))))
        | inr r ↦ inr (inr (inr (digits_sound text v (ground (arith, p, q, r, e)))))
      ]
    ]
  ]

  -- What amp_get_double accepts is "inf", "nan" and "-inf", and numerals: an optional sign, one or
  -- more digits, and perhaps a dot with any number of digits behind it. The result is what the text
  -- stands for: a numeral is evaluated digit by digit in the given arithmetic.
  pub get_double_sound :
      (box : Box) (key : Bytes) (v : D)
      → amp_get_double ar box key ≡ ok v
      → (s : Bytes) × (size : ℕ) × (get_buf box key ≡ ok (s, size)) × Accepted (take size s) v
  unfolding amp_get_double
  get_double_sound box key v e = elim (Result-cases (get_buf box key)) [
    | inr (code, found) ↦ absurd (ground (arith, found, e))
    | inl ((s, size), found) ↦
        (s, size, found, read_double_sound (take size s) size v (ground (arith, found, e)))
  ]
