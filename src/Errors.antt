-- ===== src/Errors.antt =====
-- The error codes of amp.h, with ENOMEM of errno.h, and the results of fallible calls.
use libamp.Common.{ℕ, ◌≡◌, ◌⊎◌, inl, inr, refl, Bool, true, false}

abbrev pub bad_key_size : ℕ
bad_key_size = 100

abbrev pub bad_val_size : ℕ
bad_val_size = 101

abbrev pub box_empty : ℕ
box_empty = 102

abbrev pub req_key_missing : ℕ
req_key_missing = 103

abbrev pub proto_error : ℕ
proto_error = 105

abbrev pub key_not_found : ℕ
key_not_found = 106

abbrev pub decode_error : ℕ
decode_error = 107

abbrev pub encode_error : ℕ
encode_error = 108

abbrev pub out_of_range : ℕ
out_of_range = 109

abbrev pub internal_error : ℕ
internal_error = 110

abbrev pub no_such_ask_key : ℕ
no_such_ask_key = 111

abbrev pub enomem : ℕ
enomem = 12

-- A call that fills its out parameters and returns 0, or returns a code and leaves them alone.
pub data Result {ℓ} (A : Type ℓ) : Type ℓ where
  ok : A → Result A
  err : ℕ → Result A

infixl 5 ◌>>=◌
abbrev pub ◌>>=◌ {ℓ κ} : {A : Type ℓ} {B : Type κ} → Result A → (A → Result B) → Result B
ok a >>= f = f a
err e >>= f = err e

abbrev pub is_ok {ℓ} : {A : Type ℓ} → Result A → Bool
is_ok (ok a) = true
is_ok (err e) = false

-- A result behind a step needs a result of the step.
pub ok_before {ℓ κ} :
    {A : Type ℓ} {B : Type κ} (step : Result A) (rest : A → Result B) {b : B}
    → step >>= rest ≡ ok b
    → (a : A) × (step ≡ ok a) × (rest a ≡ ok b)
ok_before (err e) rest h = cc
ok_before (ok a) rest h = (a, refl, h)

-- Every result is one or the other.
pub Result-cases : {A : Type 0} (r : Result A) → ((a : A) × (r ≡ ok a)) ⊎ ((e : ℕ) × (r ≡ err e))
Result-cases (ok a) = inl (a, refl)
Result-cases (err e) = inr (e, refl)
