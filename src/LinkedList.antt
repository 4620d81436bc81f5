-- ===== src/LinkedList.antt =====
-- The singly linked lists of list.c: a list is the sequence of its `first` pointers. List_reverse
-- relinks the same nodes, and allocates and frees none.
pub mod Laws
use libamp.Common.{ℕ, suc, ◌+◌, List, [], ◌∷◌, Option, none, some, if◌then◌else◌}
use libamp.Memory.{Memory, malloc, release}
use libamp.Errors.{enomem}

module _ {A : Type 0} where
  -- The list with the value of `*err`.
  unfoldable pub list_push : List A → A → Memory → List A × ℕ × Memory
  unfolding malloc
  list_push list x m =
      let (got, m') = malloc m in if got then (x ∷ list, 0, m') else (list, enomem, m')

  -- The rest with the value of `*x`, if that is set.
  unfoldable pub list_pop : List A → Memory → List A × Option A × Memory
  unfolding release
  list_pop [] m = ([], none, m)
  list_pop (x ∷ rest) m = (rest, some x, release 1 m)

  unfoldable pub reverse_loop : List A → List A → List A
  reverse_loop head [] = head
  reverse_loop head (x ∷ next) = reverse_loop (x ∷ head) next

  unfoldable pub list_reverse : List A → List A
  unfolding reverse_loop
  list_reverse list = reverse_loop [] list

  unfoldable pub length_loop : ℕ → List A → ℕ
  length_loop n [] = n
  length_loop n (x ∷ rest) = length_loop (n + 1) rest

  unfoldable pub list_length : List A → ℕ
  unfolding length_loop
  list_length list = length_loop 0 list

  unfoldable pub list_free : List A → Memory → Memory
  unfolding release
  list_free [] m = m
  list_free (x ∷ next) m = list_free next (release 1 m)

  -- `apply` may change what each `first` points to.
  unfoldable pub list_map : (A → A) → List A → List A
  list_map apply [] = []
  list_map apply (x ∷ rest) = apply x ∷ list_map apply rest
