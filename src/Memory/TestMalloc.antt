-- ===== src/Memory/TestMalloc.antt =====
-- test_malloc and its switches (mem.c, the build with AMP_TEST_SUPPORT). The pointer that
-- `the_real_malloc` returns is an argument of each call.
use libamp.Common.{Bool, true, false, if◌then◌else◌}
use libamp.Common.Int.{ℤ, pos, ◌-ℤ◌, leb_ℤ}

pub record TestMalloc : Type 0 where
  pub failure_mode_enabled : Bool
  pub allocations_until_failure : ℤ
  pub allocation_failure_occurred : Bool

unfoldable pub enable_malloc_failures : ℤ → TestMalloc → TestMalloc
enable_malloc_failures times_until_failure s = record {
  failure_mode_enabled = true;
  allocations_until_failure = times_until_failure;
  allocation_failure_occurred = false;
}

unfoldable pub disable_malloc_failures : TestMalloc → TestMalloc
disable_malloc_failures s = record s { failure_mode_enabled = false }

-- The call of the real malloc at the end; `real` says whether it returns memory.
call_real_malloc : Bool → TestMalloc → Bool × TestMalloc
call_real_malloc true s = (true, s)
call_real_malloc false s = (false, record s { allocation_failure_occurred = true })

unfoldable pub test_malloc : Bool → TestMalloc → Bool × TestMalloc
unfolding call_real_malloc ◌-ℤ◌
test_malloc real s =
    if s.failure_mode_enabled
    then (let s' = record s { allocations_until_failure = s.allocations_until_failure -ℤ pos 1 } in
        if leb_ℤ s.allocations_until_failure (pos 0)
        then (false, record s' { allocation_failure_occurred = true })
        else call_real_malloc real s')
    else call_real_malloc real s
