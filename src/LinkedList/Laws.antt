-- ===== src/LinkedList/Laws.antt =====
-- What the list operations do, and the nodes that they free.
use libamp.Common.{ℕ, ◌+◌, ◌≡◌, refl, ◌∙◌, arith, List, [], ◌∷◌, ◌++◌, length, append-nil}
use libamp.Memory.{Memory}
use libamp.LinkedList.{reverse_loop, list_reverse, length_loop, list_length, list_free}

module _ {A : Type 0} where
  length_loop-length : (n : ℕ) (l : List A) → length_loop n l ≡ n + length l
  unfolding length_loop
  length_loop-length n [] = omega arith
  length_loop-length n (x ∷ l) = length_loop-length (n + 1) l ∙ omega arith

  reverse_loop-loop :
      (head l k : List A) → reverse_loop k (reverse_loop head l) ≡ reverse_loop (l ++ k) head
  unfolding reverse_loop
  reverse_loop-loop head [] k = refl
  reverse_loop-loop head (x ∷ l) k = reverse_loop-loop (x ∷ head) l k

  length-reverse_loop : (head l : List A) → length (reverse_loop head l) ≡ length head + length l
  unfolding reverse_loop
  length-reverse_loop head [] = omega arith
  length-reverse_loop head (x ∷ l) = length-reverse_loop (x ∷ head) l ∙ omega arith

  -- List_reverse undoes itself, and keeps what List_length counts, which is the number of nodes.
  pub reverse_involutive :
      (l : List A)
      → (list_reverse (list_reverse l) ≡ l)
        × (list_length (list_reverse l) ≡ list_length l)
        × (list_length l ≡ length l)
  unfolding list_reverse list_length reverse_loop
  reverse_involutive l = (
    reverse_loop-loop [] l [] ∙ append-nil l,
    omega (
      arith,
      length_loop-length 0 (reverse_loop [] l),
      length-reverse_loop [] l,
      length_loop-length 0 l,
    ),
    omega (arith, length_loop-length 0 l),
  )

  free-length : (l : List A) (m : Memory) → (list_free l m).frees ≡ m.frees + length l
  unfolding list_free
  free-length [] m = omega arith
  free-length (x ∷ l) m = free-length l (record m { frees = m.frees + 1 }) ∙ omega arith

  -- List_free frees as many nodes as List_length counts.
  pub free-list_length : (l : List A) (m : Memory) → (list_free l m).frees ≡ m.frees + list_length l
  unfolding list_length
  free-list_length l m = omega (arith, free-length l m, length_loop-length 0 l)
