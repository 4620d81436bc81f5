-- ===== src/Hashing.antt =====
-- The chained hash tables that box.c and table.c share ("C Interfaces and Implementations"): one
-- chain, the bucket array, and their laws. Box and Table are built on these.
pub mod Chain
pub mod Buckets
pub mod Writes
pub mod Free
use libamp.Common.{ℕ, ◌≡◌, Bool, true, arith}

-- A compare function (`cmp(a, b) == 0`) and a hash function, with what a table needs of the pair.
pub record Hashing (K : Type 0) : Type 0 where
  pub hash : K → ℕ
  pub matches : K → K → Bool
  pub hash-matches : (x y : K) → matches x y ≡ true → hash x ≡ hash y
  pub matches_refl : (x : K) → matches x x ≡ true
  pub matches_symm : (x y : K) → matches x y ≡ matches y x
  pub matches_trans : (x y z : K) → matches x y ≡ true → matches y z ≡ true → matches x z ≡ true

module _ {K : Type 0} (h : Hashing K) (x y z : K) where
  pub matches_congr_left : h.matches x y ≡ true → h.matches x z ≡ h.matches y z
  matches_congr_left p =
      ground (arith, h.matches_trans y x z, h.matches_trans x y z, h.matches_symm x y)

  pub matches_congr_right : h.matches y z ≡ true → h.matches x y ≡ h.matches x z
  matches_congr_right p =
      ground (arith, h.matches_trans x z y, h.matches_trans x y z, h.matches_symm y z)
