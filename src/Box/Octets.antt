-- ===== src/Box/Octets.antt =====
-- The keys and values of a box (box.c) are bytes, and stay so.
use libamp.Common.{
  ℕ, zero, suc, ◌<◌, ◌≡◌, arith, [], ◌∷◌, All, take, Option-cases, Bool-cases, inl, inr, ◌==◌,
}
use libamp.Common.Int.{ℤ, pos_part}
use libamp.CString.{Bytes, c_str, str_eq}
use libamp.CString.Laws.{box_key, str_eq-c_str}
use libamp.Memory.{Memory, malloc}
use libamp.Hashing.Buckets.{view}
use libamp.Hashing.Writes.{link-All, rewrite-All}
use libamp.Box.{Box, KeyValue, key_of, empty_box, new_key_value, store, put_buf}

abbrev pub IsByteString : Bytes → Type 0
IsByteString = All (λ c. c < 256)

-- The data of an entry are bytes.
abbrev pub IsBytes : KeyValue → Type 0
IsBytes e = IsByteString e.key × IsByteString e.value

abbrev pub HasBytes : Box → Type 0
HasBytes box = All (All IsBytes) box.buckets

pub take-IsByteString : (n : ℕ) (s : Bytes) → IsByteString s → IsByteString (take n s)
take-IsByteString zero s h = tt
take-IsByteString (suc n) [] h = tt
take-IsByteString (suc n) (c ∷ s) h = (h.0, take-IsByteString n s h.1)

c_str-IsByteString : (s : Bytes) → IsByteString s → IsByteString (c_str s)
unfolding c_str
c_str-IsByteString [] h = tt
c_str-IsByteString (c ∷ s) h = elim (Bool-cases (c == 0)) [
  | inl e ↦ rw e tt
  | inr e ↦ rw e (h.0, c_str-IsByteString s h.1)
]

store-HasBytes :
    (box : Box) (key : Bytes) (e : KeyValue) (m : Memory)
    → ((j : Bytes) → str_eq j e.key ≡ str_eq j key)
    → HasBytes box
    → IsBytes e
    → HasBytes (store box key e m).1
unfolding store
store-HasBytes box key e m same h b = elim (Option-cases (view box_key key_of box.buckets key)) [
  | inl n ↦
      rw (n, store)
        (elim (Bool-cases (m.succeeds m.calls)) [
          | inl got ↦ rw got (link-All box_key key_of IsBytes box.buckets h e b)
          | inr out ↦ rw out h
        ])
  | inr (old, s) ↦
      rw (s, store)
        (rewrite-All box_key key_of IsBytes box.buckets h key (λ _. e)
          (λ old p. ground (
            arith,
            same e.key,
            box_key.matches_refl e.key,
            box_key.matches_trans e.key key old.key,
          ))
          (λ _ _ _. b))
]

entry-IsBytes :
    (key buf : Bytes) (n : ℕ)
    → IsByteString key
    → IsByteString buf
    → IsBytes (new_key_value key buf n)
unfolding new_key_value
entry-IsBytes key buf n k b = (c_str-IsByteString key k, take-IsByteString n buf b)

entry_same :
    (key buf : Bytes) (n : ℕ) (j : Bytes) → str_eq j (new_key_value key buf n).key ≡ str_eq j key
unfolding new_key_value
entry_same key buf n j = str_eq-c_str j key

-- Bytes that are put leave bytes.
pub put_buf-HasBytes :
    (box : Box) (key buf : Bytes) (n : ℤ) (m : Memory)
    → HasBytes box
    → IsByteString key
    → IsByteString buf
    → HasBytes (put_buf box key buf n m).1
unfolding put_buf
put_buf-HasBytes box key buf n m h k b =
    let e = new_key_value key buf (pos_part n) in
    let stored =
      store-HasBytes box key e (malloc m).1 (entry_same key buf (pos_part n)) h
        (entry-IsBytes key buf (pos_part n) k b) in
    ground (arith, stored)

pub empty_box-HasBytes : HasBytes empty_box
unfolding empty_box
empty_box-HasBytes = omega arith
