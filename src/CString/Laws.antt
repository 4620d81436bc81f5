-- ===== src/CString/Laws.antt =====
-- strcmp is equality of the bytes before the terminators, and the hashes read no more than these.
use libamp.Common.{ℕ, ◌+◌, ◌*◌, ◌%◌, ◌^◌, ◌≡◌, ◌≢◌, refl, sym, ap, ◌∙◌, true, [], ◌∷◌, arith, All}
use libamp.Hashing.{Hashing}
use libamp.CString.{
  Bytes, c_str, bytes_eq, str_eq, hash_loop, hash_string, responder_loop, hash_responder_key,
  char_to_unsigned,
}

pub bytes_eq→eq : (s t : Bytes) → bytes_eq s t ≡ true → s ≡ t
unfolding bytes_eq
bytes_eq→eq [] [] h = refl
bytes_eq→eq [] (d ∷ t) h = cc
bytes_eq→eq (c ∷ s) [] h = cc
bytes_eq→eq (c ∷ s) (d ∷ t) h = ground (arith, bytes_eq→eq s t)

pub bytes_eq_refl : (s : Bytes) → bytes_eq s s ≡ true
unfolding bytes_eq
bytes_eq_refl [] = refl
bytes_eq_refl (c ∷ s) = ground (arith, bytes_eq_refl s)

pub str_eq→eq : (s t : Bytes) → str_eq s t ≡ true → c_str s ≡ c_str t
unfolding str_eq
str_eq→eq s t h = unfold str_eq in bytes_eq→eq (c_str s) (c_str t) h

pub eq→str_eq : (s t : Bytes) → c_str s ≡ c_str t → str_eq s t ≡ true
unfolding str_eq
eq→str_eq s t e = rw e (bytes_eq_refl (c_str t))

pub c_str_id : (s : Bytes) → All (λ c. c ≢ 0) s → c_str s ≡ s
unfolding c_str
c_str_id [] h = refl
c_str_id (c ∷ s) h = ground (arith, c_str_id s h.1)

pub c_str_idem : (s : Bytes) → c_str (c_str s) ≡ c_str s
unfolding c_str
c_str_idem [] = refl
c_str_idem (c ∷ s) = ground (arith, c_str_idem s)

hash_loop-c_str : (h : ℕ) (s : Bytes) → hash_loop h (c_str s) ≡ hash_loop h s
unfolding hash_loop c_str
hash_loop-c_str h [] = refl
hash_loop-c_str h (c ∷ s) =
    ground (arith, hash_loop-c_str ((h * 16 + char_to_unsigned c) % 2 ^ 32) s)

responder_loop-c_str : (h : ℕ) (s : Bytes) → responder_loop h (c_str s) ≡ responder_loop h s
unfolding responder_loop c_str
responder_loop-c_str h [] = refl
responder_loop-c_str h (c ∷ s) = ground (arith, responder_loop-c_str ((37 * h + c) % 2 ^ 32) s)

pub hash_string-str_eq : (s t : Bytes) → str_eq s t ≡ true → hash_string s ≡ hash_string t
unfolding hash_string
hash_string-str_eq s t h =
    sym (hash_loop-c_str 0 s) ∙ ap (hash_loop 0) (str_eq→eq s t h) ∙ hash_loop-c_str 0 t

pub hash_responder_key-str_eq :
    (s t : Bytes) → str_eq s t ≡ true → hash_responder_key s ≡ hash_responder_key t
unfolding hash_responder_key
hash_responder_key-str_eq s t h =
    sym (responder_loop-c_str 0 s)
    ∙ ap (responder_loop 0) (str_eq→eq s t h)
    ∙ responder_loop-c_str 0 t

pub str_eq_refl : (s : Bytes) → str_eq s s ≡ true
str_eq_refl s = eq→str_eq s s refl

str_eq_flip : (s t : Bytes) → str_eq s t ≡ true → str_eq t s ≡ true
str_eq_flip s t h = eq→str_eq t s (sym (str_eq→eq s t h))

pub str_eq_symm : (s t : Bytes) → str_eq s t ≡ str_eq t s
str_eq_symm s t = ground (arith, str_eq_flip s t, str_eq_flip t s)

pub str_eq_trans : (s t u : Bytes) → str_eq s t ≡ true → str_eq t u ≡ true → str_eq s u ≡ true
str_eq_trans s t u h k = eq→str_eq s u (str_eq→eq s t h ∙ str_eq→eq t u k)

-- The keys of a box: cmp_string and hash_string (box.c).
abbrev pub box_key : Hashing Bytes
box_key = record {
  matches = str_eq;
  hash = hash_string;
  matches_refl = str_eq_refl;
  matches_symm = str_eq_symm;
  matches_trans = str_eq_trans;
  hash-matches = hash_string-str_eq;
}

-- The keys of the responder map: cmp_responder_key and hash_responder_key (dispatch.c).
abbrev pub responder_key : Hashing Bytes
responder_key = record {
  matches = str_eq;
  hash = hash_responder_key;
  matches_refl = str_eq_refl;
  matches_symm = str_eq_symm;
  matches_trans = str_eq_trans;
  hash-matches = hash_responder_key-str_eq;
}

pub str_eq-c_str : (s t : Bytes) → str_eq s (c_str t) ≡ str_eq s t
unfolding str_eq
str_eq-c_str s t = rw c_str_idem
