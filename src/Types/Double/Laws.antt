-- ===== src/Types/Double/Laws.antt =====
-- What amp_get_double (types.c) reads: the text of a number, and what amp_put_double put.
use libamp.Common.{
  ℕ, suc, ◌≡◌, ◌≢◌, ◌<◌, ◌-◌, refl, ap, ◌∙◌, arith, subst, Bool, true, false, not, ◌||◌, [], ◌∷◌,
  ◌++◌, Option, none, some, All, length, take, take_all, take-append_short, ltb, if◌then◌else◌,
  Bool-cases, inl, inr,
}
use libamp.Common.Int.{pos, negsuc}
use libamp.CString.{Bytes, bytes_eq}
use libamp.CString.Laws.{str_eq_refl}
use libamp.Memory.{Memory}
use libamp.Errors.{ok}
use libamp.Box.{Box, put_buf, get_buf}
use libamp.Box.Valid.{IsValid}
use libamp.Box.Put.{put_buf-lookup}
use libamp.Buftoll.{is_digit}
use libamp.Buftoll.Correct.{IsDigit, Sign, no_sign, plus, minus, sign_bytes, is_minus}
use libamp.Types.Double.{
  Arithmetic, Reading, double_text, double_buf_len, amp_put_double, read_char, double_loop,
  read_digits, read_double, amp_get_double,
}

-- The text of a number: a sign, digits, and digits behind a dot.
pub record Numeral : Type 0 where
  pub sign : Sign
  pub first : ℕ
  pub whole : Bytes
  pub fraction : Option Bytes

abbrev pub fraction_bytes : Option Bytes → Bytes
fraction_bytes none = []
fraction_bytes (some f) = b'.' ∷ f

abbrev pub numeral_bytes : Numeral → Bytes
numeral_bytes n = sign_bytes n.sign ++ (n.first ∷ (n.whole ++ fraction_bytes n.fraction))

abbrev pub FractionDigits : Option Bytes → Type 0
FractionDigits none = Unit
FractionDigits (some f) = All IsDigit f

abbrev pub IsNumeral : Numeral → Type 0
IsNumeral n = IsDigit n.first × All IsDigit n.whole × FractionDigits n.fraction

module _ {D : Type 0} (ar : Arithmetic D) where
  -- The number is moved away from zero by `part`.
  abbrev pub away : Bool → D → D → D
  away neg acc part = if neg then ar.sub acc part else ar.add acc part

  -- Horner's rule.
  abbrev pub whole_value : Bool → D → Bytes → D
  whole_value neg acc [] = acc
  whole_value neg acc (c ∷ s) =
      whole_value neg (away neg (ar.mul acc (ar.of_int (pos 10))) (ar.of_int (pos (c - b'0')))) s

  -- The digits behind the dot, the first in the place of `factor`.
  abbrev pub fraction_value : Bool → D → D → Bytes → D
  fraction_value neg acc factor [] = acc
  fraction_value neg acc factor (c ∷ s) =
      fraction_value neg (away neg acc (ar.mul (ar.of_int (pos (c - b'0'))) factor))
        (ar.div factor (ar.of_int (pos 10))) s

  abbrev pub with_fraction : Bool → D → Option Bytes → D
  with_fraction neg acc none = acc
  with_fraction neg acc (some f) = fraction_value neg acc ar.one_tenth f

  abbrev pub numeral_value : Numeral → D
  numeral_value n =
      let neg = is_minus n.sign in
      with_fraction neg (whole_value neg ar.zero_point (n.first ∷ n.whole)) n.fraction

  abbrev pub reading : Bool → Bool → D → D → Reading D
  reading got_dot any acc factor = record {
    got_dot = got_dot;
    any = any;
    acc = acc;
    fraction_factor = factor;
  }

  loop-fraction :
      (neg : Bool) (acc factor : D) (f : Bytes)
      → All IsDigit f
      → double_loop ar neg (reading true true acc factor) f ≡ ok (fraction_value neg acc factor f)
  unfolding double_loop read_char
  loop-fraction neg acc factor [] h = refl
  loop-fraction neg acc factor (c ∷ s) h =
      let digit : is_digit c ≡ true = ground (arith, h.0) in
      rw (digit, read_char, double_loop)
        (loop-fraction neg (away neg acc (ar.mul (ar.of_int (pos (c - b'0'))) factor))
          (ar.div factor (ar.of_int (pos 10))) s h.1)

  loop-whole :
      (neg any : Bool) (acc : D) (c : ℕ) (s : Bytes) (f : Option Bytes)
      → IsDigit c
      → All IsDigit s
      → FractionDigits f
      → double_loop ar neg (reading false any acc ar.one_tenth) (c ∷ s ++ fraction_bytes f)
        ≡ ok (with_fraction neg (whole_value neg acc (c ∷ s)) f)
  unfolding double_loop read_char
  loop-whole neg any acc c [] none d h g =
      let digit : is_digit c ≡ true = ground (arith, d) in rw (digit, read_char, double_loop) refl
  loop-whole neg any acc c [] (some f) d h g =
      let digit : is_digit c ≡ true = ground (arith, d) in
      rw (digit, read_char, double_loop)
        (loop-fraction neg (whole_value neg acc (c ∷ [])) ar.one_tenth f g)
  loop-whole neg any acc c (c' ∷ s) f d h g =
      let digit : is_digit c ≡ true = ground (arith, d) in
      rw (digit, read_char, double_loop)
        (loop-whole neg true (whole_value neg acc (c ∷ [])) c' s f h.0 h.1 g)

  read_digits-numeral :
      (n : Numeral) → IsNumeral n → read_digits ar (numeral_bytes n) ≡ ok (numeral_value n)
  unfolding read_digits
  read_digits-numeral n h = by_sign n.sign
    where
      by_sign :
          (σ : Sign)
          → read_digits ar (sign_bytes σ ++ (n.first ∷ (n.whole ++ fraction_bytes n.fraction)))
            ≡ ok (
                with_fraction
                  (is_minus σ)
                  (whole_value (is_minus σ) ar.zero_point (n.first ∷ n.whole))
                  n.fraction)
      by_sign no_sign =
          let read = loop-whole false false ar.zero_point n.first n.whole n.fraction h.0 h.1 h.2 in
          let digit = h.0 in ground (arith, digit, read)
      by_sign plus = loop-whole false false ar.zero_point n.first n.whole n.fraction h.0 h.1 h.2
      by_sign minus = loop-whole true false ar.zero_point n.first n.whole n.fraction h.0 h.1 h.2

  -- What amp_get_double gives back for a double, if `n` is what its text spells.
  abbrev pub read_back : D → Numeral → D
  read_back v n =
      if ar.is_nan v
      then ar.nan
      else if ar.is_inf v
      then if not (ar.sign_bit v) then ar.infinity else ar.mul ar.infinity (ar.of_int (negsuc 0))
      else numeral_value n

  not_special :
      (c : ℕ) (s : Bytes)
      → c ≢ b'i'
      → c ≢ b'n'
      → c ≢ b'-'
      → read_double ar (c ∷ s) (suc (length s)) ≡ read_digits ar (c ∷ s)
  unfolding read_double bytes_eq
  not_special c s i n m = ground arith

  not_special_minus :
      (d : ℕ) (s : Bytes)
      → IsDigit d
      → read_double ar (b'-' ∷ d ∷ s) (suc (suc (length s))) ≡ read_digits ar (b'-' ∷ d ∷ s)
  unfolding read_double bytes_eq
  not_special_minus d s h = ground arith

  -- A numeral is none of the three special texts.
  signed_read :
      (σ : Sign) (d : ℕ) (s : Bytes)
      → IsDigit d
      → read_double ar (sign_bytes σ ++ d ∷ s) (length (sign_bytes σ ++ d ∷ s))
        ≡ read_digits ar (sign_bytes σ ++ d ∷ s)
  signed_read no_sign d s h = not_special d s (omega arith) (omega arith) (omega arith)
  signed_read plus d s h = not_special b'+' (d ∷ s) (omega arith) (omega arith) (omega arith)
  signed_read minus d s h = not_special_minus d s h

  numeral_read :
      (n : Numeral)
      → IsNumeral n
      → read_double ar (numeral_bytes n) (length (numeral_bytes n)) ≡ ok (numeral_value n)
  numeral_read n h =
      signed_read n.sign n.first (n.whole ++ fraction_bytes n.fraction) h.0
      ∙ read_digits-numeral n h

  special_read :
      (v : D) (n : Numeral)
      → ar.is_nan v || ar.is_inf v ≡ true
      → read_double ar (double_text ar v) (length (double_text ar v)) ≡ ok (read_back v n)
  unfolding read_double bytes_eq
  special_read v n h = elim (Bool-cases (ar.is_nan v)) [
    | inl e ↦ rw e refl
    | inr e ↦
        let i : ar.is_inf v ≡ true = ground (arith, e, h) in
        elim (Bool-cases (ar.sign_bit v)) [ inl p ↦ rw (e, i, p) refl | inr p ↦ rw (e, i, p) refl ]
  ]

  back_read :
      (v : D) (n : Numeral)
      → IsNumeral n
      → (ar.is_nan v ≡ false → ar.is_inf v ≡ false → ar.print v ≡ numeral_bytes n)
      → read_double ar (double_text ar v) (length (double_text ar v)) ≡ ok (read_back v n)
  back_read v n h printed = elim (Bool-cases (ar.is_nan v || ar.is_inf v)) [
    | inl special ↦ special_read v n special
    | inr plain ↦
        let no_nan : ar.is_nan v ≡ false = ground arith in
        let no_inf : ar.is_inf v ≡ false = ground arith in
        let text = printed no_nan no_inf in rw (no_nan, no_inf, text) (numeral_read n h)
  ]

  -- If amp_put_double answers 0 on a well-formed box, and the text of the double has at most 99
  -- bytes, amp_get_double with the same key gives NaN for NaN and infinity with its sign for
  -- infinity. For any other double, whose "%.17f" text is a numeral, it gives what adding up the
  -- digits of that text from left to right comes to in the arithmetic of the machine, which is a
  -- parameter here: that this is the double that was put is not stated.
  pub get_double-put :
      (box : Box) (key : Bytes) (v : D) (m : Memory) (n : Numeral) (r : ℕ × Box × Memory)
      → IsValid box
      → IsNumeral n
      → (ar.is_nan v ≡ false → ar.is_inf v ≡ false → ar.print v ≡ numeral_bytes n)
      → length (double_text ar v) < double_buf_len
      → amp_put_double ar box key v m ≡ some r
      → r.0 ≡ 0
      → amp_get_double ar r.1 key ≡ ok (read_back v n)
  unfolding amp_put_double amp_get_double
  get_double-put box key v m n r valid h printed fits put done =
      let text = double_text ar v in
      let buf = take (double_buf_len - 1) text ++ 0 ∷ [] in
      let stored = put_buf box key buf (pos (length text)) m in
      let short : ltb double_buf_len (length text) ≡ false = ground (arith, fits) in
      let same : stored ≡ r = ground (arith, short, put) in
      let done' : stored.0 ≡ 0 = ap (λ x. x.0) same ∙ done in
      let back = put_buf-lookup box key buf (pos (length text)) m valid done' key in
      let cut : take (double_buf_len - 1) text ≡ text =
        take_all (double_buf_len - 1) text (omega (arith, fits)) in
      let whole : take (length text) buf ≡ text = rw cut (
        take-append_short (length text) text (0 ∷ []) (omega arith)
        ∙ take_all (length text) text (omega arith)) in
      let found : get_buf stored.1 key ≡ ok (text, length text) =
        back ∙ rw (str_eq_refl key, whole) refl in
      let there : amp_get_double ar stored.1 key ≡ ok (read_back v n) =
        rw (found, amp_get_double)
          (rw (take_all (length text) text (omega arith)) (back_read v n h printed)) in
      subst (λ x. amp_get_double ar x.1 key ≡ ok (read_back v n)) same there
