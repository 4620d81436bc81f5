-- ===== src/Table/Laws.antt =====
-- What each operation of table.c does to a well-formed table.
use libamp.Common.{
  ℕ, ◌+◌, ◌-◌, ◌*◌, ◌^◌, ◌<◌, ◌≤◌, ◌≡◌, refl, ap, ◌∙◌, arith, true, length, none, some,
  if◌then◌else◌, Option-cases, is_some, length-replicate, inl, inr, Bool-cases, ltb, ◌||◌, ◌&&◌,
  ◌==◌, List, [], ◌∷◌, ◌++◌, All,
}
use libamp.Memory.{Memory, release}
use libamp.Hashing.{Hashing}
use libamp.Hashing.Buckets.{
  flatten, view, IsSound, view_congr, replicate-IsSound, replicate-view, flatten-replicate,
}
use libamp.Hashing.Free.{free_buckets, free_buckets_lem}
use libamp.Hashing.Writes.{
  link, rewrite, cut, view-link, view-rewrite, view-cut, length-link, length-rewrite, length-cut,
  link-IsSound, rewrite-IsSound, cut-IsSound, width-link, width-rewrite, width-cut,
}
use libamp.Errors.{enomem}
use libamp.Table.{
  Table, Binding, key_of, num_buckets_for, prime_below, empty_table, table_get, table_put,
  table_remove, table_free,
}

abbrev pub Fits : ℕ → Type 0
Fits size = (127 ≤ size) × (size ≤ 65521)

prime_below_bounds :
    (last : ℕ) (ps : List ℕ) (end hint : ℕ)
    → hint ≤ end
    → Fits last
    → All Fits ps
    → (size : ℕ) × (prime_below last (ps ++ end ∷ []) hint ≡ some size) × Fits size
unfolding prime_below
prime_below_bounds last [] end hint h fits all = (last, ground arith, fits)
prime_below_bounds last (p ∷ ps) end hint h fits all = elim (Bool-cases (ltb p hint)) [
  | inl e ↦
      let (size, found, good) = prime_below_bounds p ps end hint h all.0 all.1 in
      (size, rw (e, prime_below) found, good)
  | inr e ↦ (last, rw (e, prime_below) refl, fits)
]

-- With a hint in the range of `int`, Table_new never reads behind its array of primes, and the
-- table gets from 127 to 65521 buckets.
pub num_buckets_for_bounds :
    (hint : ℕ) → hint < 2 ^ 31 → (size : ℕ) × (num_buckets_for hint ≡ some size) × Fits size
unfolding num_buckets_for
num_buckets_for_bounds hint small =
    prime_below_bounds 127
      (127 ∷ 251 ∷ 509 ∷ 509 ∷ 1021 ∷ 2053 ∷ 4093 ∷ 8191 ∷ 16381 ∷ 32771 ∷ 65521 ∷ []) 2147483647
      hint (omega arith) (omega arith) (omega arith)

module _ {K V : Type 0} (h : Hashing K) where
  -- Every binding stands once, in the bucket of its key, and the length counts them.
  pub record IsTable (t : Table K V) : Type 0 where
    pub roomy : 0 < length t.buckets
    pub sound : IsSound h key_of (length t.buckets) 0 t.buckets
    pub counted : length (flatten t.buckets) ≡ t.length

  pub empty_table-IsTable : (size : ℕ) → 0 < size → IsTable (empty_table size)
  unfolding empty_table
  empty_table-IsTable size pos = record {
    roomy = rw length-replicate pos;
    sound = rw length-replicate (replicate-IsSound h key_of size 0 size);
    counted = ap length (flatten-replicate {E = Binding K V} size);
  }

  pub table_get-empty :
      (size : ℕ) (key : K) → table_get h (empty_table {K = K} {V = V} size) key ≡ none
  unfolding table_get empty_table
  table_get-empty size key =
      rw (replicate-view {E = Binding K V} h key_of size key, table_get, empty_table) refl

  module _ (t : Table K V) (key : K) (value : V) (m : Memory) (v : IsTable t) where
    keeps : (b : Binding K V) → h.matches key b.key ≡ true → h.matches b.key b.key ≡ true
    keeps b same = h.matches_refl b.key

    -- Table_put answers 0 if the key is there or its allocation succeeds, and else ENOMEM. On a
    -- well-formed table, when it answers 0 every key that the compare function takes for the given
    -- one has the given value. All other lookups, and all lookups after ENOMEM, are as before.
    pub put-lookup :
        (j : K)
        → table_get h (table_put h t key value m).1 j ≡ (
            if h.matches j key && (table_put h t key value m).0 == 0
            then some value
            else table_get h t j)
    unfolding table_get table_put
    put-lookup j = elim (Option-cases (view h key_of t.buckets key)) [
      | inl n ↦
          ground
            (arith, view-link h key_of t.buckets v.roomy (record { key = key; value = value }) j)
      | inr (old, s) ↦ ground (
        arith,
        view-rewrite h key_of t.buckets v.roomy key (λ b. record b { value = value }) keeps old s j,
      )
    ]

    pub put_code :
        (table_put h t key value m).0
        ≡ (if is_some (table_get h t key) || m.succeeds m.calls then 0 else enomem)
    unfolding table_get table_put
    put_code = ground arith

    linked-IsTable :
        (s : ℕ)
        → view h key_of t.buckets key ≡ none
        → IsTable (record {
          buckets = link h key_of t.buckets (record { key = key; value = value });
          length = t.length + 1;
          timestamp = s;
        })
    linked-IsTable s absent =
        let b : Binding K V = record { key = key; value = value } in
        record {
          roomy = rw (width-link h key_of t.buckets b) v.roomy;
          sound = link-IsSound h key_of t.buckets v.roomy v.sound b absent;
          counted = omega (arith, length-link h key_of t.buckets v.roomy b, v.counted);
        }

    rewritten-IsTable :
        (s : ℕ)
        → IsTable (record t {
          buckets = rewrite h key_of t.buckets key (λ b. record b { value = value });
          timestamp = s;
        })
    rewritten-IsTable s =
        let u : Binding K V → Binding K V = λ b. record b { value = value } in
        record {
          roomy = rw (width-rewrite h key_of t.buckets key u) v.roomy;
          sound = rewrite-IsSound h key_of t.buckets v.roomy v.sound key u keeps;
          counted = length-rewrite h key_of t.buckets v.roomy key u keeps ∙ v.counted;
        }

    pub put-IsTable : IsTable (table_put h t key value m).1
    unfolding table_put
    put-IsTable = elim (Option-cases (view h key_of t.buckets key)) [
      | inl n ↦
          rw (n, table_put)
            (elim (Bool-cases (m.succeeds m.calls)) [
              | inl got ↦ rw got (linked-IsTable _ n)
              | inr out ↦ rw out v
            ])
      | inr (old, s) ↦ rw (s, table_put) (rewritten-IsTable _)
    ]

  module _ (t : Table K V) (key : K) (m : Memory) (v : IsTable t) where
    -- Table_remove answers what Table_get finds; after it, on a well-formed table, every key that
    -- the compare function takes for the given one is missing, and other lookups are as before.
    pub remove-lookup :
        (j : K)
        → ((table_remove h t key m).0 ≡ table_get h t key)
          × (table_get h (table_remove h t key m).1 j
              ≡ (if h.matches j key then none else table_get h t j))
    unfolding table_get table_remove
    remove-lookup j = elim (Option-cases (view h key_of t.buckets key)) [
      | inl n ↦ ground (arith, view_congr h key_of t.buckets j key)
      | inr (old, s) ↦ ground (arith, view-cut h key_of t.buckets v.roomy key j v.sound)
    ]

    cut-IsTable :
        (old : Binding K V) (s : ℕ)
        → view h key_of t.buckets key ≡ some old
        → IsTable
            (record { buckets = cut h key_of t.buckets key; length = t.length - 1; timestamp = s })
    cut-IsTable old s found = record {
      roomy = rw (width-cut h key_of t.buckets key) v.roomy;
      sound = cut-IsSound h key_of t.buckets v.roomy v.sound key;
      counted = omega (arith, length-cut h key_of t.buckets v.roomy key old found, v.counted);
    }

    pub remove-IsTable : IsTable (table_remove h t key m).1
    unfolding table_remove
    remove-IsTable = elim (Option-cases (view h key_of t.buckets key)) [
      | inl n ↦
          rw (n, table_remove) (record { roomy = v.roomy; sound = v.sound; counted = v.counted })
      | inr (old, s) ↦ rw (s, table_remove) (cut-IsTable old _ s)
    ]

  -- Table_free gives back two blocks for each key of a well-formed table, the binding and the value,
  -- and one for the table.
  pub table_free_memory :
      (t : Table K V) (m : Memory) → IsTable t → (table_free t m).frees ≡ m.frees + 2 * t.length + 1
  unfolding table_free release
  table_free_memory t m v =
      let freed = free_buckets_lem t.buckets m in
      let total : (free_buckets t.buckets m).frees ≡ m.frees + 2 * length (flatten t.buckets) =
        ap (λ q. q.frees) freed in
      ground (arith, v.counted, total)
