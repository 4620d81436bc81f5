-- ===== src/Box/Valid.antt =====
-- Well-formed boxes (box.c): every binding stands in its bucket once, with sizes that fit the wire.
use libamp.Common.{
  ℕ, ◌<◌, ◌≤◌, ◌≡◌, ◌≢◌, refl, sym, ap, ◌∙◌, arith, All, true, length, List, [], ◌∷◌, ◌==◌,
  Bool-cases, inl, inr, length-take, is_some,
}
use libamp.CString.{Bytes, c_str, strlen, str_eq}
use libamp.CString.Laws.{box_key, c_str_id, str_eq→eq}
use libamp.Hashing.Buckets.{
  flatten, view, IsSound, replicate-IsSound, replicate-view, flatten-replicate, replicate-All,
  bucket, All-get_or,
}
use libamp.Hashing.Chain.{find}
use libamp.Errors.{err, is_ok, key_not_found}
use libamp.Box.{
  Box, KeyValue, key_of, max_key_length, max_value_length, empty_box, get_buf, amp_has_key,
  has_key_loop, new_key_value,
}

-- An entry whose cached sizes are right, and whose key is a non-empty C string.
pub record IsEntry (e : KeyValue) : Type 0 where
  pub key_size : e.key_size ≡ length e.key
  pub no_nul : All (λ c. c ≢ 0) e.key
  pub key_pos : 0 < e.key_size
  pub key_max : e.key_size ≤ max_key_length
  pub value_size : e.value_size ≡ length e.value
  pub value_max : e.value_size ≤ max_value_length

pub record IsValid (box : Box) : Type 0 where
  pub roomy : 0 < length box.buckets
  pub sound : IsSound box_key key_of (length box.buckets) 0 box.buckets
  pub counted : length (flatten box.buckets) ≡ box.length
  pub entries : All (All IsEntry) box.buckets

pub empty_box-IsValid : IsValid empty_box
unfolding empty_box
empty_box-IsValid = record {
  roomy = omega arith;
  sound = replicate-IsSound box_key key_of 127 0 127;
  counted = ap length (flatten-replicate {E = KeyValue} 127);
  entries = replicate-All IsEntry 127;
}

pub get_buf-empty : (key : Bytes) → get_buf empty_box key ≡ err key_not_found
unfolding get_buf empty_box
get_buf-empty key = rw (replicate-view {E = KeyValue} box_key key_of 127 key, get_buf, empty_box)

All-c_str : (s : Bytes) → All (λ c. c ≢ 0) (c_str s)
unfolding c_str
All-c_str [] = tt
All-c_str (c ∷ s) = elim (Bool-cases (c == 0)) [
  | inl e ↦ rw e tt
  | inr e ↦ rw e (ground arith, All-c_str s)
]

-- What _amp_put_buf copies out of a buffer that is long enough is a well-formed entry.
pub new_key_value-IsEntry :
    (key buf : Bytes) (n : ℕ)
    → 0 < strlen key
    → strlen key ≤ max_key_length
    → n ≤ length buf
    → n ≤ max_value_length
    → IsEntry (new_key_value key buf n)
unfolding new_key_value strlen
new_key_value-IsEntry key buf n pos max_key fits max_value = record {
  key_size = refl;
  no_nul = All-c_str key;
  key_pos = pos;
  key_max = max_key;
  value_size = omega (arith, length-take n buf);
  value_max = max_value;
}

sizes_agree :
    (key : Bytes) (p : KeyValue) → IsEntry p → str_eq key p.key ≡ true → strlen key ≡ p.key_size
unfolding strlen
sizes_agree key p v e = ap length (str_eq→eq key p.key e ∙ c_str_id p.key v.no_nul) ∙ sym v.key_size

has_key_loop-find :
    (key : Bytes) (c : List KeyValue)
    → All IsEntry c
    → has_key_loop (strlen key) key c ≡ is_some (find box_key key_of key c)
unfolding has_key_loop find
has_key_loop-find key [] v = refl
has_key_loop-find key (p ∷ c) v = ground (arith, sizes_agree key p v.0, has_key_loop-find key c v.1)

-- On a well-formed box, amp_has_key says 1 exactly when _amp_get_buf finds the key: the test of
-- the cached size never rejects a key that strcmp accepts.
pub has_key-get_buf :
    (box : Box) (key : Bytes) → IsValid box → amp_has_key box key ≡ is_ok (get_buf box key)
unfolding amp_has_key get_buf view
has_key-get_buf box key v =
    let c = bucket box_key key_of box.buckets key in
    has_key_loop-find key c (unfold bucket in All-get_or IsEntry box.buckets _ v.entries)
    ∙ ground arith
