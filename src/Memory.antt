-- ===== src/Memory.antt =====
-- The allocator seen through MALLOC and free (mem.h). The C library's malloc is the environment:
-- `succeeds n` says whether its n-th call returns memory. Blocks are counted, not addressed.
pub mod TestMalloc
pub mod Plenty
use libamp.Common.{ℕ, ◌+◌, ◌≡◌, Bool, true, false, if◌then◌else◌, arith}

pub record Memory : Type 0 where
  pub succeeds : ℕ → Bool
  pub calls : ℕ
  pub allocs : ℕ
  pub frees : ℕ

-- MALLOC: `true` stands for a fresh block, `false` for NULL.
unfoldable pub malloc : Memory → Bool × Memory
malloc m =
    if m.succeeds m.calls
    then (true, record m { calls = m.calls + 1; allocs = m.allocs + 1 })
    else (false, record m { calls = m.calls + 1 })

-- `free` on each of `n` blocks.
unfoldable pub release : ℕ → Memory → Memory
release n m = record m { frees = m.frees + n }

abbrev pub fresh_memory : (ℕ → Bool) → Memory
fresh_memory f = record { succeeds = f; calls = 0; allocs = 0; frees = 0 }
