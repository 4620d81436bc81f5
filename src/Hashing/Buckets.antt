-- ===== src/Hashing/Buckets.antt =====
-- The bucket array: where entries stand, what the array means, and the writes to one bucket.
use libamp.Common.{
  ℕ, zero, suc, ◌+◌, ◌%◌, ◌<◌, ◌≡◌, ◌≢◌, refl, sym, ap, ◌∙◌, true, List, [], ◌∷◌, ◌++◌, Option,
  none, arith, All, length, set, get_or, replicate, if◌then◌else◌, ◌==◌, Bool-cases, Option-cases,
  inl, inr, length-set, length-append, get_or-set_self, get_or-set_ne, get_or-replicate,
}
use libamp.Hashing.{Hashing}
use libamp.Hashing.Chain.{find, IsDistinct, find_congr, find-append_none, find-append_some}

-- All entries, bucket by bucket.
unfoldable pub flatten : {E : Type 0} → List (List E) → List E
flatten [] = []
flatten (c ∷ bs) = c ++ flatten bs

unfoldable pub home : {K : Type 0} → Hashing K → K → ℕ → ℕ
home h k n = h.hash k % n

pub home-lt : {K : Type 0} (h : Hashing K) (k : K) (n : ℕ) → 0 < n → home h k n < n
unfolding home
home-lt h k n p = omega arith

pub home_congr :
    {K : Type 0} (h : Hashing K) (j k : K) (n : ℕ) → h.matches j k ≡ true → home h j n ≡ home h k n
unfolding home
home_congr h j k n p = rw (h.hash-matches j k p)

pub length-flatten-set :
    {E : Type 0} (bs : List (List E)) (i : ℕ) (c : List E)
    → i < length bs
    → length (flatten (set bs i c)) + length (get_or bs i []) ≡ length (flatten bs) + length c
unfolding flatten
length-flatten-set [] i c p = absurd (omega arith)
length-flatten-set (b ∷ bs) zero c p = simp length-append (omega arith)
length-flatten-set (b ∷ bs) (suc i) c p =
    simp length-append (omega (arith, length-flatten-set bs i c (omega arith)))

pub flatten-replicate : {E : Type 0} (n : ℕ) → flatten (replicate {A = List E} n []) ≡ []
unfolding flatten
flatten-replicate zero = refl
flatten-replicate (suc n) = flatten-replicate n

module _ {κ} {E : Type 0} (P : E → Type κ) where
  pub All-append : (xs ys : List E) → All P xs → All P ys → All P (xs ++ ys)
  All-append [] ys p q = q
  All-append (x ∷ xs) ys p q = (p.0, All-append xs ys p.1 q)

  -- A property of every entry of every bucket.
  pub All-flatten : (bs : List (List E)) → All (All P) bs → All P (flatten bs)
  unfolding flatten
  All-flatten [] p = tt
  All-flatten (c ∷ bs) p = All-append c (flatten bs) p.0 (All-flatten bs p.1)

  pub All-get_or : (bs : List (List E)) (i : ℕ) → All (All P) bs → All P (get_or bs i [])
  All-get_or [] i p = tt
  All-get_or (c ∷ bs) zero p = p.0
  All-get_or (c ∷ bs) (suc i) p = All-get_or bs i p.1

  pub All-set :
      (bs : List (List E)) (i : ℕ) (c : List E)
      → All (All P) bs
      → All P c
      → All (All P) (set bs i c)
  All-set [] i c p q = tt
  All-set (b ∷ bs) zero c p q = (q, p.1)
  All-set (b ∷ bs) (suc i) c p q = (p.0, All-set bs i c p.1 q)

  pub replicate-All : (n : ℕ) → All (All P) (replicate n [])
  replicate-All zero = tt
  replicate-All (suc n) = (tt, replicate-All n)

module _ {K E : Type 0} (h : Hashing K) (key_of : E → K) where
  -- The bucket of a key.
  unfoldable pub bucket : List (List E) → K → List E
  bucket bs k = get_or bs (home h k (length bs)) []

  -- What a lookup finds.
  unfoldable pub view : List (List E) → K → Option E
  unfolding bucket
  view bs k = find h key_of k (bucket bs k)

  -- Each entry of the bucket belongs there, of `n` buckets, and no key occurs twice.
  abbrev pub IsHoused : ℕ → ℕ → List E → Type 0
  IsHoused n i c = IsDistinct h key_of c × All (λ e. home h (key_of e) n ≡ i) c

  -- The same of each bucket from number `i` on.
  abbrev pub IsSound : ℕ → ℕ → List (List E) → Type 0
  IsSound n i [] = Unit {0}
  IsSound n i (c ∷ bs) = IsHoused n i c × IsSound n (i + 1) bs

  pub IsSound-get_or :
      (n i : ℕ) (bs : List (List E)) (j : ℕ) → IsSound n i bs → IsHoused n (i + j) (get_or bs j [])
  IsSound-get_or n i [] j p = (tt, tt)
  IsSound-get_or n i (c ∷ bs) zero p = let e : i + 0 ≡ i = omega arith in rw e p.0
  IsSound-get_or n i (c ∷ bs) (suc j) p =
      let e : i + suc j ≡ i + 1 + j = omega arith in rw e (IsSound-get_or n (i + 1) bs j p.1)

  pub IsSound-set :
      (n i : ℕ) (bs : List (List E)) (j : ℕ) (c : List E)
      → IsSound n i bs
      → IsHoused n (i + j) c
      → IsSound n i (set bs j c)
  IsSound-set n i [] j c p q = tt
  IsSound-set n i (b ∷ bs) zero c p q = let e : i + 0 ≡ i = omega arith in (rw e at q, p.1)
  IsSound-set n i (b ∷ bs) (suc j) c p q =
      let e : i + suc j ≡ i + 1 + j = omega arith in
      (p.0, IsSound-set n (i + 1) bs j c p.1 (rw e at q))

  pub replicate-IsSound : (n i m : ℕ) → IsSound n i (replicate m [])
  replicate-IsSound n i zero = tt
  replicate-IsSound n i (suc m) = ((tt, tt), replicate-IsSound n (i + 1) m)

  pub bucket-IsHoused :
      (bs : List (List E)) (k : K)
      → IsSound (length bs) 0 bs
      → IsHoused (length bs) (home h k (length bs)) (bucket bs k)
  unfolding bucket
  bucket-IsHoused bs k p =
      let e : 0 + home h k (length bs) ≡ home h k (length bs) = omega arith in
      rw e at (IsSound-get_or (length bs) 0 bs (home h k (length bs)) p)

  -- A bucket is replaced: lookups of the keys that belong there go to the new contents.
  pub view-set :
      (bs : List (List E)) (j k : K) (c : List E)
      → 0 < length bs
      → view (set bs (home h k (length bs)) c) j
        ≡ (if home h j (length bs) == home h k (length bs) then find h key_of j c else view bs j)
  unfolding view
  view-set bs j k c pos =
      rw (length-set bs (home h k (length bs)) c)
        (elim (Bool-cases (home h j (length bs) == home h k (length bs))) [
          | inl e ↦
              let same : home h j (length bs) ≡ home h k (length bs) = ground arith in
              rw e (
                rw same (
                  ap (find h key_of j)
                    (get_or-set_self bs (home h k (length bs)) c [] (home-lt h k (length bs) pos))))
          | inr e ↦ rw e (
              ap (find h key_of j) (
                get_or-set_ne bs (home h k (length bs)) (home h j (length bs)) c [] (ground arith)))
        ])

  pub view_congr : (bs : List (List E)) (j k : K) → h.matches j k ≡ true → view bs j ≡ view bs k
  unfolding view bucket
  view_congr bs j k e = rw (home_congr h j k (length bs) e) (find_congr h key_of j k _ e)

  pub replicate-view : (n : ℕ) (k : K) → view (replicate n []) k ≡ none
  unfolding view find
  replicate-view n k = rw get_or-replicate

  find-housed_none :
      (n i : ℕ) (k : K) (c : List E)
      → All (λ e. home h (key_of e) n ≡ i) c
      → home h k n ≢ i
      → find h key_of k c ≡ none
  unfolding find
  find-housed_none n i k [] p q = refl
  find-housed_none n i k (e ∷ c) p q =
      ground (arith, home_congr h k (key_of e) n, find-housed_none n i k c p.1)

  find-flatten_below :
      (n i : ℕ) (k : K) (bs : List (List E))
      → IsSound n i bs
      → home h k n < i
      → find h key_of k (flatten bs) ≡ none
  unfolding flatten find
  find-flatten_below n i k [] p q = refl
  find-flatten_below n i k (c ∷ bs) p q =
      find-append_none h key_of k c (flatten bs) (find-housed_none n i k c p.0.1 (omega arith))
      ∙ find-flatten_below n (i + 1) k bs p.1 (omega arith)

  find-flatten_from :
      (n i j : ℕ) (k : K) (bs : List (List E))
      → IsSound n i bs
      → home h k n ≡ i + j
      → find h key_of k (flatten bs) ≡ find h key_of k (get_or bs j [])
  unfolding flatten find
  find-flatten_from n i j k [] p q = refl
  find-flatten_from n i zero k (c ∷ bs) p q = elim (Option-cases (find h key_of k c)) [
    | inl e ↦
        find-append_none h key_of k c (flatten bs) e
        ∙ find-flatten_below n (i + 1) k bs p.1 (omega arith)
        ∙ sym e
    | inr (v, e) ↦ find-append_some h key_of k c (flatten bs) v e ∙ sym e
  ]
  find-flatten_from n i (suc j) k (c ∷ bs) p q =
      find-append_none h key_of k c (flatten bs) (find-housed_none n i k c p.0.1 (omega arith))
      ∙ find-flatten_from n (i + 1) j k bs p.1 (omega arith)

  -- Looking through all the entries finds what the lookup finds.
  pub find-flatten :
      (bs : List (List E)) (k : K)
      → IsSound (length bs) 0 bs
      → find h key_of k (flatten bs) ≡ view bs k
  unfolding view
  find-flatten bs k p = find-flatten_from (length bs) 0 (home h k (length bs)) k bs p (omega arith)

  append-IsDistinct :
      (a b : List E)
      → IsDistinct h key_of a
      → IsDistinct h key_of b
      → All (λ e. find h key_of (key_of e) b ≡ none) a
      → IsDistinct h key_of (a ++ b)
  append-IsDistinct [] b p q r = q
  append-IsDistinct (e ∷ a) b p q r =
      (find-append_none h key_of (key_of e) a b p.0 ∙ r.0, append-IsDistinct a b p.1 q r.1)

  apart_below :
      (n i : ℕ) (bs : List (List E)) (c : List E)
      → IsSound n (i + 1) bs
      → All (λ e. home h (key_of e) n ≡ i) c
      → All (λ e. find h key_of (key_of e) (flatten bs) ≡ none) c
  apart_below n i bs [] p q = tt
  apart_below n i bs (e ∷ c) p q =
      (find-flatten_below n (i + 1) (key_of e) bs p (omega arith), apart_below n i bs c p q.1)

  -- No key occurs twice in the whole table.
  pub flatten-IsDistinct :
      (n i : ℕ) (bs : List (List E)) → IsSound n i bs → IsDistinct h key_of (flatten bs)
  unfolding flatten
  flatten-IsDistinct n i [] p = tt
  flatten-IsDistinct n i (c ∷ bs) p =
      append-IsDistinct c (flatten bs) p.0.0 (flatten-IsDistinct n (i + 1) bs p.1)
        (apart_below n i bs c p.1 p.0.1)
