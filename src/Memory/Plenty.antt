-- ===== src/Memory/Plenty.antt =====
-- An allocator that never fails.
use libamp.Common.{ℕ, ◌≡◌, ap, ◌∙◌, true}
use libamp.Memory.{Memory}

abbrev pub IsPlenty : Memory → Type 0
IsPlenty m = (n : ℕ) → m.succeeds n ≡ true

-- It goes on never to fail, as long as it is left alone.
pub IsPlenty-after : (m m' : Memory) → m'.succeeds ≡ m.succeeds → IsPlenty m → IsPlenty m'
IsPlenty-after m m' e h = λ n. ap (λ f. f n) e ∙ h n
