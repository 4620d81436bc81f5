-- ===== src/Table.antt =====
-- Table_T (table.c): the hash table from keys to pointers that the dispatch maps are. A compare and
-- a hash function come with the table, here as the Hashing that every operation takes.
pub mod Laws
pub mod Refine
use libamp.Common.{
  ℕ, ◌+◌, ◌-◌, ◌*◌, ◌%◌, ◌^◌, ◌≡◌, Bool, true, false, List, [], ◌∷◌, Option, none, some, length,
  replicate, ltb, if◌then◌else◌,
}
use libamp.Memory.{Memory, malloc, release}
use libamp.Hashing.{Hashing}
use libamp.Hashing.Buckets.{view, flatten}
use libamp.Hashing.Free.{free_buckets}
use libamp.Hashing.Writes.{link, rewrite, cut}
use libamp.Errors.{enomem}

-- struct binding, without its link.
pub record Binding (K V : Type 0) : Type 0 where
  pub key : K
  pub value : V

-- struct Table: `table->size` is the length of the bucket array.
pub record Table (K V : Type 0) : Type 0 where
  pub buckets : List (List (Binding K V))
  pub length : ℕ
  pub timestamp : ℕ

abbrev pub key_of : {K V : Type 0} → Binding K V → K
key_of b = b.key

-- The array in Table_new behind its first element; the last one is INT_MAX.
abbrev pub primes : List ℕ
primes = 127 ∷ 251 ∷ 509 ∷ 509 ∷ 1021 ∷ 2053 ∷ 4093 ∷ 8191 ∷ 16381 ∷ 32771 ∷ 65521 ∷ 2147483647 ∷ []

-- `for (i = 1; primes[i] < hint; i++)`, and `primes[i-1]` after it; `none` is a read behind the
-- array.
unfoldable pub prime_below : ℕ → List ℕ → ℕ → Option ℕ
prime_below last [] hint = none
prime_below last (p ∷ ps) hint =
    let rest = prime_below p ps hint in if ltb p hint then rest else some last

unfoldable pub num_buckets_for : ℕ → Option ℕ
unfolding prime_below
num_buckets_for hint = prime_below 127 primes hint

module _ {K V : Type 0} where
  unfoldable pub empty_table : ℕ → Table K V
  empty_table size = record { buckets = replicate size []; length = 0; timestamp = 0 }

  -- `none` where the loop reads behind its array; then a table or NULL.
  unfoldable pub table_new : ℕ → Memory → Option (Option (Table K V) × Memory)
  unfolding malloc
  table_new hint m = elim (num_buckets_for hint) [
    | none ↦ none
    | some size ↦
        let (got, m') = malloc m in
        if got then some (some (empty_table size), m') else some (none, m')
  ]

  unfoldable pub table_get : Hashing K → Table K V → K → Option V
  table_get h table key = elim (view h key_of table.buckets key) [
    | some p ↦ some p.value
    | none ↦ none
  ]

  -- A present key keeps its binding, and the key that stands there.
  unfoldable pub table_put : Hashing K → Table K V → K → V → Memory → ℕ × Table K V × Memory
  unfolding malloc
  table_put h table key value m = elim (view h key_of table.buckets key) [
    | none ↦
        let (got, m') = malloc m in
        if got
        then (
          0,
          record {
            buckets = link h key_of table.buckets (record { key = key; value = value });
            length = table.length + 1;
            timestamp = (table.timestamp + 1) % 2 ^ 32;
          },
          m',
        )
        else (enomem, table, m')
    | some p ↦ (
      0,
      record table {
        buckets = rewrite h key_of table.buckets key (λ b. record b { value = value });
        timestamp = (table.timestamp + 1) % 2 ^ 32;
      },
      m,
    )
  ]

  -- The timestamp moves whether or not the key is there.
  unfoldable pub table_remove : Hashing K → Table K V → K → Memory → Option V × Table K V × Memory
  unfolding release
  table_remove h table key m = elim (view h key_of table.buckets key) [
    | some p ↦ (
      some p.value,
      record {
        buckets = cut h key_of table.buckets key;
        length = table.length - 1;
        timestamp = (table.timestamp + 1) % 2 ^ 32;
      },
      release 1 m,
    )
    | none ↦ (none, record table { timestamp = (table.timestamp + 1) % 2 ^ 32 }, m)
  ]

  -- The loops over the chains of a table that is not empty, and the table.
  unfoldable pub table_free : Table K V → Memory → Memory
  unfolding release
  table_free table m = release 1 (if ltb 0 table.length then free_buckets table.buckets m else m)

  unfoldable pub table_length : Table K V → ℕ
  table_length table = table.length

  unfoldable pub table_num_buckets : Table K V → ℕ
  table_num_buckets table = length table.buckets
