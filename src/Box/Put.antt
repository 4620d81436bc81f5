-- ===== src/Box/Put.antt =====
-- _amp_put_buf (box.c): what it stores, what it refuses, and the memory that it keeps.
use libamp.Common.{
  ℕ, ◌+◌, ◌*◌, ◌≤◌, ◌≡◌, ◌≢◌, refl, sym, ◌∙◌, arith, Bool, true, false, length, none, Bool-cases,
  inl, inr, if◌then◌else◌, take, ◌||◌, ◌&&◌, not, ltb, ◌==◌, Option-cases,
}
use libamp.Common.Int.{ℤ, pos, pos_part, ltb_ℤ}
use libamp.CString.{Bytes, strlen, str_eq}
use libamp.CString.Laws.{box_key, str_eq-c_str}
use libamp.Hashing.Buckets.{view, view_congr}
use libamp.Hashing.Writes.{
  link, rewrite, view-link, view-rewrite, length-link, length-rewrite, link-IsSound,
  rewrite-IsSound, link-All, rewrite-All, width-link, width-rewrite,
}
use libamp.Memory.{Memory, malloc}
use libamp.Errors.{ok, is_ok, enomem, bad_key_size, bad_val_size}
use libamp.Box.{
  Box, KeyValue, key_of, max_key_length, max_value_length, get_buf, put_buf, store, new_key_value,
}
use libamp.Box.Valid.{IsEntry, IsValid, new_key_value-IsEntry}

-- The entry that a call stores has an equal key.
entry_key :
    (key buf : Bytes) (n : ℕ) (j : Bytes) → str_eq j (new_key_value key buf n).key ≡ str_eq j key
unfolding new_key_value
entry_key key buf n j = str_eq-c_str j key

new_value :
    (key buf : Bytes) (n : ℕ)
    → ((new_key_value key buf n).value ≡ take n buf) × ((new_key_value key buf n).value_size ≡ n)
unfolding new_key_value
new_value key buf n = (refl, refl)

module _ (key : Bytes) (e : KeyValue) (same : (j : Bytes) → str_eq j e.key ≡ str_eq j key) where
  -- Writing `e` over an entry that is stored under an equal key keeps the entry's key, up to strcmp.
  keeps : (old : KeyValue) → str_eq key old.key ≡ true → str_eq e.key old.key ≡ true
  keeps old p =
      ground
        (arith, same e.key, box_key.matches_refl e.key, box_key.matches_trans e.key key old.key)

  module _ (box : Box) (m : Memory) (v : IsValid box) where
    store-lookup :
        (j : Bytes)
        → (store box key e m).0 ≡ 0
        → get_buf (store box key e m).1 j
          ≡ (if str_eq j key then ok (e.value, e.value_size) else get_buf box j)
    unfolding store get_buf
    store-lookup j done = elim (Option-cases (view box_key key_of box.buckets key)) [
      | inl n ↦ ground (arith, view-link box_key key_of box.buckets v.roomy e j, same j)
      | inr (old, s) ↦ ground (
        arith,
        view-rewrite box_key key_of box.buckets v.roomy key (λ _. e) keeps old s j,
        same j,
      )
    ]

    linked-IsValid :
        (t : ℕ)
        → IsEntry e
        → view box_key key_of box.buckets key ≡ none
        → IsValid (record {
          buckets = link box_key key_of box.buckets e;
          length = box.length + 1;
          timestamp = t;
        })
    linked-IsValid t entry absent =
        let bs = box.buckets in
        let equal : str_eq key e.key ≡ true = same key ∙ box_key.matches_refl key in
        record {
          roomy = rw (width-link box_key key_of bs e) v.roomy;
          sound =
              link-IsSound box_key key_of bs v.roomy v.sound e
                (sym (view_congr box_key key_of bs key e.key equal) ∙ absent);
          counted = omega (arith, length-link box_key key_of bs v.roomy e, v.counted);
          entries = link-All box_key key_of IsEntry bs v.entries e entry;
        }

    rewritten-IsValid :
        (t : ℕ)
        → IsEntry e
        → IsValid (record box {
          buckets = rewrite box_key key_of box.buckets key (λ _. e);
          timestamp = t;
        })
    rewritten-IsValid t entry =
        let bs = box.buckets in
        record {
          roomy = rw (width-rewrite box_key key_of bs key (λ _. e)) v.roomy;
          sound = rewrite-IsSound box_key key_of bs v.roomy v.sound key (λ _. e) keeps;
          counted = length-rewrite box_key key_of bs v.roomy key (λ _. e) keeps ∙ v.counted;
          entries =
              rewrite-All box_key key_of IsEntry bs v.entries key (λ _. e) keeps (λ _ _ _. entry);
        }

    store-IsValid : IsEntry e → IsValid (store box key e m).1
    unfolding store
    store-IsValid entry = elim (Option-cases (view box_key key_of box.buckets key)) [
      | inl n ↦
          rw (n, store)
            (elim (Bool-cases (m.succeeds m.calls)) [
              | inl got ↦ rw got (linked-IsValid _ entry n)
              | inr out ↦ rw out v
            ])
      | inr (old, s) ↦ rw (s, store) (rewritten-IsValid _ entry)
    ]

  store_unchanged :
      (box : Box) (m : Memory) → (store box key e m).0 ≢ 0 → (store box key e m).1 ≡ box
  unfolding store
  store_unchanged box m failed = ground arith

  store_memory :
      (box : Box) (m : Memory)
      → (store box key e m).2.allocs + m.frees + 2 * box.length + 1
        ≡ m.allocs + (store box key e m).2.frees + 2 * (store box key e m).1.length
  unfolding store
  store_memory box m = ground arith

  store_code :
      (box : Box) (m : Memory)
      → (store box key e m).0
        ≡ (if is_ok (get_buf box key) || m.succeeds m.calls then 0 else enomem)
  unfolding store get_buf
  store_code box m = ground arith

-- A key that fits the wire: one to 255 bytes before the terminator.
abbrev pub good_key : Bytes → Bool
good_key key = not (ltb max_key_length (strlen key) || strlen key == 0)

-- A size from 0 to 65535.
abbrev pub good_size : ℤ → Bool
good_size n = not (ltb_ℤ (pos max_value_length) n || ltb_ℤ n (pos 0))

put_buf-store :
    (box : Box) (key buf : Bytes) (n : ℤ) (m : Memory)
    → good_key key ≡ true
    → good_size n ≡ true
    → m.succeeds m.calls ≡ true
    → put_buf box key buf n m ≡ store box key (new_key_value key buf (pos_part n)) (malloc m).1
unfolding put_buf
put_buf-store box key buf n m good fine got = ground arith

put_buf_refused :
    (box : Box) (key buf : Bytes) (n : ℤ) (m : Memory)
    → good_key key && good_size n && m.succeeds m.calls ≡ false
    → (put_buf box key buf n m).1 ≡ box
unfolding put_buf
put_buf_refused box key buf n m bad = ground arith

-- _amp_put_buf answers AMP_BAD_KEY_SIZE exactly for a key of no bytes or of more than 255, else
-- AMP_BAD_VAL_SIZE exactly for a size that is negative or above 65535, else ENOMEM exactly if the
-- first allocation fails, or the key is new and the second one fails, and else 0.
pub put_buf_code :
    (box : Box) (key buf : Bytes) (n : ℤ) (m : Memory)
    → (put_buf box key buf n m).0 ≡ (
        if not (good_key key)
        then bad_key_size
        else if not (good_size n)
        then bad_val_size
        else if m.succeeds m.calls && (is_ok (get_buf box key) || m.succeeds (m.calls + 1))
        then 0
        else enomem)
unfolding put_buf
put_buf_code box key buf n m = ground (
  arith,
  store_code key (new_key_value key buf (pos_part n)) (entry_key key buf (pos_part n)) box
      (malloc m).1,
)

-- When _amp_put_buf answers an error, the box is as it was.
pub put_buf_unchanged :
    (box : Box) (key buf : Bytes) (n : ℤ) (m : Memory)
    → (put_buf box key buf n m).0 ≢ 0
    → (put_buf box key buf n m).1 ≡ box
unfolding put_buf
put_buf_unchanged box key buf n m failed = ground (
  arith,
  store_unchanged key (new_key_value key buf (pos_part n)) (entry_key key buf (pos_part n)) box
      (malloc m).1,
)

-- After _amp_put_buf has answered 0 on a well-formed box, the lookup of every key that strcmp takes
-- for the stored one gives the stored bytes and their number, and every other lookup is as before.
pub put_buf-lookup :
    (box : Box) (key buf : Bytes) (n : ℤ) (m : Memory)
    → IsValid box
    → (put_buf box key buf n m).0 ≡ 0
    → (j : Bytes)
    → get_buf (put_buf box key buf n m).1 j
      ≡ (if str_eq j key then ok (take (pos_part n) buf, pos_part n) else get_buf box j)
unfolding put_buf
put_buf-lookup box key buf n m v done j =
    let e = new_key_value key buf (pos_part n) in
    ground (
      arith,
      store-lookup key e (entry_key key buf (pos_part n)) box (malloc m).1 v j,
      new_value key buf (pos_part n),
    )

-- _amp_put_buf keeps a box well-formed, whatever it answers, if the buffer holds as many bytes as
-- the caller says.
pub put_buf-IsValid :
    (box : Box) (key buf : Bytes) (n : ℤ) (m : Memory)
    → IsValid box
    → pos_part n ≤ length buf
    → IsValid (put_buf box key buf n m).1
put_buf-IsValid box key buf n m v fits =
    elim (Bool-cases (good_key key && good_size n && m.succeeds m.calls)) [
      | inr bad ↦ rw (put_buf_refused box key buf n m bad) v
      | inl good ↦ rw (put_buf-store box key buf n m (ground arith) (ground arith) (ground arith)) (
          store-IsValid key (new_key_value key buf (pos_part n)) (entry_key key buf (pos_part n))
            box _ v
            (new_key_value-IsEntry key buf (pos_part n) (ground arith) (ground arith) fits
              (ground arith)))
    ]

-- The numbers of blocks balance in _amp_put_buf: on every branch, the blocks allocated less the
-- blocks freed are two for each binding that the box has gained. Blocks are counted here: which
-- block is freed is not stated.
pub put_buf_memory :
    (box : Box) (key buf : Bytes) (n : ℤ) (m : Memory)
    → (put_buf box key buf n m).2.allocs + m.frees + 2 * box.length
      ≡ m.allocs + (put_buf box key buf n m).2.frees + 2 * (put_buf box key buf n m).1.length
unfolding put_buf
put_buf_memory box key buf n m = ground (
  arith,
  store_memory key (new_key_value key buf (pos_part n)) (entry_key key buf (pos_part n)) box
      (malloc m).1,
)

store_succeeds :
    (box : Box) (key : Bytes) (e : KeyValue) (m : Memory)
    → (store box key e m).2.succeeds ≡ m.succeeds
unfolding store
store_succeeds box key e m = ground arith

-- A call does not change what later calls of malloc do.
pub put_buf_succeeds :
    (box : Box) (key value : Bytes) (n : ℕ) (m : Memory)
    → (put_buf box key value (pos n) m).2.succeeds ≡ m.succeeds
unfolding put_buf
put_buf_succeeds box key value n m =
    ground (arith, store_succeeds box key (new_key_value key value n) (malloc m).1)
