-- ===== src/Hashing/Free.antt =====
-- The loops of amp_free_box (box.c) and of Table_free (table.c), which free two blocks for each
-- binding: what it holds, and the binding.
use libamp.Common.{ℕ, ◌+◌, ◌*◌, ◌≡◌, ◌∙◌, ap, arith, List, [], ◌∷◌, length, length-append}
use libamp.Memory.{Memory, release}
use libamp.Hashing.Buckets.{flatten}

release_none : (m : Memory) → m ≡ release 0 m
unfolding release
release_none m =
    let same : m.frees ≡ m.frees + 0 = omega arith in ap (λ n. record m { frees = n }) same

release_more : (i j n : ℕ) (m : Memory) → i + j ≡ n → release j (release i m) ≡ release n m
unfolding release
release_more i j n m e =
    let same : m.frees + i + j ≡ m.frees + n = omega arith in ap (λ n. record m { frees = n }) same

module _ {E : Type 0} where
  -- The inner loop, down one chain.
  unfoldable pub free_chain : List E → Memory → Memory
  free_chain [] m = m
  free_chain (p ∷ c) m = free_chain c (release 1 (release 1 m))

  -- The outer loop, over the buckets.
  unfoldable pub free_buckets : List (List E) → Memory → Memory
  free_buckets [] m = m
  free_buckets (c ∷ bs) m = free_buckets bs (free_chain c m)

  free_chain_lem : (c : List E) (m : Memory) → free_chain c m ≡ release (2 * length c) m
  unfolding free_chain
  free_chain_lem [] m = release_none m
  free_chain_lem (p ∷ c) m =
      free_chain_lem c (release 1 (release 1 m))
      ∙ release_more 1 (2 * length c) (1 + 2 * length c) (release 1 m) (omega arith)
      ∙ release_more 1 (1 + 2 * length c) _ m (omega arith)

  -- The loops free two blocks for each binding.
  pub free_buckets_lem :
      (bs : List (List E)) (m : Memory) → free_buckets bs m ≡ release (2 * length (flatten bs)) m
  unfolding free_buckets flatten
  free_buckets_lem [] m = release_none m
  free_buckets_lem (c ∷ bs) m =
      free_buckets_lem bs (free_chain c m)
      ∙ ap (release (2 * length (flatten bs))) (free_chain_lem c m)
      ∙ release_more (2 * length c) (2 * length (flatten bs)) _ m
          (omega (arith, length-append c (flatten bs)))

  -- The loops, and the block that holds the buckets.
  pub free_all_lem :
      (bs : List (List E)) (m : Memory)
      → release 1 (free_buckets bs m) ≡ release (2 * length (flatten bs) + 1) m
  free_all_lem bs m =
      ap (release 1) (free_buckets_lem bs m)
      ∙ release_more (2 * length (flatten bs)) 1 _ m (omega arith)
