-- ===== src/Hashing/Chain.antt =====
-- One bucket: the linked list of bindings, as the list of the entries that they point to.
use libamp.Common.{
  ◌+◌, ◌≡◌, refl, true, List, [], ◌∷◌, ◌++◌, Option, none, some, arith, All, length, subst,
  if◌then◌else◌, inl, inr, Bool-cases,
}
use libamp.Hashing.{Hashing, matches_congr_left, matches_congr_right}

module _ {K E : Type 0} (h : Hashing K) (key_of : E → K) where
  -- `for (p = bucket; p; p = p->link) if (cmp(key, p->key) == 0) break;`
  unfoldable pub find : K → List E → Option E
  find k [] = none
  find k (e ∷ c) = if h.matches k (key_of e) then some e else find k c

  -- The found binding is given new contents.
  unfoldable pub replace : K → (E → E) → List E → List E
  replace k u [] = []
  replace k u (e ∷ c) = if h.matches k (key_of e) then u e ∷ c else e ∷ replace k u c

  -- The found binding is taken out of the chain.
  unfoldable pub unlink : K → List E → List E
  unlink k [] = []
  unlink k (e ∷ c) = if h.matches k (key_of e) then c else e ∷ unlink k c

  -- No two entries have equal keys.
  abbrev pub IsDistinct : List E → Type 0
  IsDistinct [] = Unit {0}
  IsDistinct (e ∷ c) = (find (key_of e) c ≡ none) × IsDistinct c

  pub find-equal : (k : K) (c : List E) (e : E) → find k c ≡ some e → h.matches k (key_of e) ≡ true
  unfolding find
  find-equal k [] e p = cc
  find-equal k (d ∷ c) e p = ground (arith, find-equal k c e)

  pub find_congr : (j k : K) (c : List E) → h.matches j k ≡ true → find j c ≡ find k c
  unfolding find
  find_congr j k [] p = refl
  find_congr j k (e ∷ c) p = ground (arith, find_congr j k c, matches_congr_left h j k (key_of e))

  pub replace_congr :
      (j k : K) (u : E → E) (c : List E) → h.matches j k ≡ true → replace j u c ≡ replace k u c
  unfolding replace
  replace_congr j k u [] p = refl
  replace_congr j k u (e ∷ c) p =
      ground (arith, replace_congr j k u c, matches_congr_left h j k (key_of e))

  pub find-append_none : (k : K) (a b : List E) → find k a ≡ none → find k (a ++ b) ≡ find k b
  unfolding find
  find-append_none k [] b p = refl
  find-append_none k (e ∷ a) b p = ground (arith, find-append_none k a b)

  pub find-append_some :
      (k : K) (a b : List E) (e : E) → find k a ≡ some e → find k (a ++ b) ≡ some e
  unfolding find
  find-append_some k [] b e p = cc
  find-append_some k (d ∷ a) b e p = ground (arith, find-append_some k a b e)

  pub find_All {κ} :
      (P : E → Type κ) (k : K) (c : List E) (e : E) → All P c → find k c ≡ some e → P e
  unfolding find
  find_All P k [] e all p = absurd (cc)
  find_All P k (d ∷ c) e all p = elim (Bool-cases (h.matches k (key_of d))) [
    | inl t ↦ let q : d ≡ e = ground arith in subst P q all.0
    | inr t ↦ find_All P k c e all.1 (ground arith)
  ]

  module _ (k : K) (u : E → E)
      (keeps : (e : E)
        → h.matches k (key_of e) ≡ true
        → h.matches (key_of (u e)) (key_of e) ≡ true) where
    pub find-replace :
        (j : K) (c : List E) (e : E)
        → find k c ≡ some e
        → find j (replace k u c) ≡ (if h.matches j k then some (u e) else find j c)
    unfolding find replace
    find-replace j [] e p = cc
    find-replace j (d ∷ c) e p = ground (
      arith,
      find-replace j c e,
      keeps d,
      matches_congr_right h j (key_of (u d)) (key_of d),
      matches_congr_left h j k (key_of d),
      matches_congr_right h j k (key_of d),
    )

    pub length-replace : (c : List E) → length (replace k u c) ≡ length c
    unfolding replace
    length-replace [] = refl
    length-replace (d ∷ c) = ground (arith, length-replace c)

    find-replace-none : (j : K) (c : List E) → find j c ≡ none → find j (replace k u c) ≡ none
    unfolding find replace
    find-replace-none j [] p = refl
    find-replace-none j (d ∷ c) p =
        ground
          (arith, find-replace-none j c, keeps d, matches_congr_right h j (key_of (u d)) (key_of d))

    pub replace-IsDistinct : (c : List E) → IsDistinct c → IsDistinct (replace k u c)
    unfolding replace
    replace-IsDistinct [] p = tt
    replace-IsDistinct (d ∷ c) p = elim (Bool-cases (h.matches k (key_of d))) [
      | inl e ↦ rw e (rw (find_congr _ _ c (keeps d e)) p.0, p.1)
      | inr e ↦ rw e (find-replace-none _ c p.0, replace-IsDistinct c p.1)
    ]

    pub replace-All {κ} :
        (P : E → Type κ)
        → ((e : E) → h.matches k (key_of e) ≡ true → P e → P (u e))
        → (c : List E) → All P c
        → All P (replace k u c)
    unfolding replace
    replace-All P step [] p = tt
    replace-All P step (d ∷ c) p = elim (Bool-cases (h.matches k (key_of d))) [
      | inl e ↦ rw e (step d e p.0, p.1)
      | inr e ↦ rw e (p.0, replace-All P step c p.1)
    ]

  pub find-unlink-none : (j k : K) (c : List E) → find j c ≡ none → find j (unlink k c) ≡ none
  unfolding find unlink
  find-unlink-none j k [] p = refl
  find-unlink-none j k (d ∷ c) p = ground (arith, find-unlink-none j k c)

  pub find-unlink :
      (j k : K) (c : List E)
      → IsDistinct c
      → find j (unlink k c) ≡ (if h.matches j k then none else find j c)
  unfolding find unlink
  find-unlink j k [] p = ground arith
  find-unlink j k (d ∷ c) p = ground (
    arith,
    find-unlink j k c,
    matches_congr_left h j k (key_of d),
    matches_congr_right h j k (key_of d),
    find_congr j (key_of d) c,
  )

  pub length-unlink :
      (k : K) (c : List E) (e : E) → find k c ≡ some e → length (unlink k c) + 1 ≡ length c
  unfolding find unlink
  length-unlink k [] e p = cc
  length-unlink k (d ∷ c) e p = ground (arith, length-unlink k c e)

  pub unlink_absent : (k : K) (c : List E) → find k c ≡ none → unlink k c ≡ c
  unfolding find unlink
  unlink_absent k [] p = refl
  unlink_absent k (d ∷ c) p = ground (arith, unlink_absent k c)

  pub unlink-IsDistinct : (k : K) (c : List E) → IsDistinct c → IsDistinct (unlink k c)
  unfolding unlink
  unlink-IsDistinct k [] p = tt
  unlink-IsDistinct k (d ∷ c) p = elim (Bool-cases (h.matches k (key_of d))) [
    | inl e ↦ rw e p.1
    | inr e ↦ rw e (find-unlink-none _ k c p.0, unlink-IsDistinct k c p.1)
  ]

  pub unlink-All {κ} : (P : E → Type κ) (k : K) (c : List E) → All P c → All P (unlink k c)
  unfolding unlink
  unlink-All P k [] p = tt
  unlink-All P k (d ∷ c) p = elim (Bool-cases (h.matches k (key_of d))) [
    | inl e ↦ rw e p.1
    | inr e ↦ rw e (p.0, unlink-All P k c p.1)
  ]
