-- ===== src/Table/Refine.antt =====
-- A table as a map from keys to values: runs of Table_put and Table_remove.
use libamp.Common.{ℕ, ◌≡◌, true, List, [], ◌∷◌, Option, none, some, arith, if◌then◌else◌, ◌∙◌}
use libamp.Memory.{Memory}
use libamp.Hashing.{Hashing}
use libamp.Table.{Table, table_get, table_put, table_remove}
use libamp.Table.Laws.{IsTable, put-lookup, put-IsTable, remove-lookup, remove-IsTable, put_code}

pub data Call (K V : Type 0) : Type 0 where
  put : K → V → Call K V
  remove : K → Call K V

module _ {K V : Type 0} (h : Hashing K) where
  unfoldable pub call : Call K V → Table K V → Memory → Table K V × Memory
  call (put key value) t m = let (_, t', m') = table_put h t key value m in (t', m')
  call (remove key) t m = let (_, t', m') = table_remove h t key m in (t', m')

  -- What a call that has its memory means for the map.
  unfoldable pub call_map : Call K V → (K → Option V) → K → Option V
  call_map (put key value) f j = if h.matches j key then some value else f j
  call_map (remove key) f j = if h.matches j key then none else f j

  unfoldable pub calls : List (Call K V) → Table K V → Memory → Table K V × Memory
  unfolding call
  calls [] t m = (t, m)
  calls (c ∷ cs) t m = let (t', m') = call c t m in calls cs t' m'

  unfoldable pub calls_map : List (Call K V) → (K → Option V) → K → Option V
  calls_map [] f = f
  calls_map (c ∷ cs) f = calls_map cs (call_map c f)

  module _ (t : Table K V) (m : Memory) (v : IsTable h t) where
    call-IsTable : (c : Call K V) → IsTable h (call c t m).0
    unfolding call
    call-IsTable (put key value) = put-IsTable h t key value m v
    call-IsTable (remove key) = remove-IsTable h t key m v

    call-lookup :
        (c : Call K V) (f : K → Option V)
        → m.succeeds m.calls ≡ true
        → ((j : K) → table_get h t j ≡ f j)
        → (j : K) → table_get h (call c t m).0 j ≡ call_map c f j
    unfolding call call_map
    call-lookup (put key value) f plenty same j =
        ground (arith, put-lookup h t key value m v j, put_code h t key value m v, same j)
    call-lookup (remove key) f plenty same j =
        ground (arith, (remove-lookup h t key m v j).1, same j)

  -- A call leaves the environment as it is.
  call-succeeds :
      (c : Call K V) (t : Table K V) (m : Memory) (n : ℕ) → (call c t m).1.succeeds n ≡ m.succeeds n
  unfolding call table_put table_remove
  call-succeeds (put key value) t m n = ground arith
  call-succeeds (remove key) t m n = ground arith

  -- With an allocator that does not fail, every sequence of Table_put and Table_remove keeps a
  -- well-formed table well-formed, and Table_get then finds what the same updates make of the map
  -- that the table stood for.
  pub calls_refine :
      (cs : List (Call K V)) (t : Table K V) (m : Memory) (f : K → Option V)
      → IsTable h t
      → ((n : ℕ) → m.succeeds n ≡ true)
      → ((j : K) → table_get h t j ≡ f j)
      → IsTable h (calls cs t m).0 × ((j : K) → table_get h (calls cs t m).0 j ≡ calls_map cs f j)
  unfolding calls calls_map
  calls_refine [] t m f v plenty same = (v, same)
  calls_refine (c ∷ cs) t m f v plenty same =
      calls_refine cs (call c t m).0 (call c t m).1 (call_map c f) (call-IsTable t m v c)
        (λ n. call-succeeds c t m n ∙ plenty n) (call-lookup t m v c f (plenty m.calls) same)
