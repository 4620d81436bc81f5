-- ===== src/Hashing/Writes.antt =====
-- The three writes to a table: a new head, new contents for a binding, a binding taken out.
use libamp.Common.{
  ◌+◌, ◌<◌, ◌≡◌, refl, ap, ◌∙◌, true, List, [], ◌∷◌, none, some, arith, All, length, set, get_or,
  if◌then◌else◌, length-set,
}
use libamp.Hashing.{Hashing}
use libamp.Hashing.Chain.{
  find, replace, unlink, find-replace, length-replace, find-unlink, length-unlink,
  replace-IsDistinct, replace-All, replace_congr, unlink-IsDistinct, unlink-All,
}
use libamp.Hashing.Buckets.{
  home, home-lt, home_congr, bucket, view, view-set, IsSound, IsHoused, bucket-IsHoused,
  IsSound-set, flatten, length-flatten-set, All-set, All-get_or,
}

module _ {K E : Type 0} (h : Hashing K) (key_of : E → K) where
  -- `p->link = buckets[i]; buckets[i] = p;`
  unfoldable pub link : List (List E) → E → List (List E)
  unfolding bucket home
  link bs e = set bs (home h (key_of e) (length bs)) (e ∷ bucket h key_of bs (key_of e))

  unfoldable pub rewrite : List (List E) → K → (E → E) → List (List E)
  unfolding bucket home
  rewrite bs k u = set bs (home h k (length bs)) (replace h key_of k u (bucket h key_of bs k))

  unfoldable pub cut : List (List E) → K → List (List E)
  unfolding bucket home
  cut bs k = set bs (home h k (length bs)) (unlink h key_of k (bucket h key_of bs k))

  -- The number of buckets never changes.
  pub width-link : (bs : List (List E)) (e : E) → length (link bs e) ≡ length bs
  unfolding link
  width-link bs e = length-set bs _ _

  pub width-rewrite : (bs : List (List E)) (k : K) (u : E → E) → length (rewrite bs k u) ≡ length bs
  unfolding rewrite
  width-rewrite bs k u = length-set bs _ _

  pub width-cut : (bs : List (List E)) (k : K) → length (cut bs k) ≡ length bs
  unfolding cut
  width-cut bs k = length-set bs _ _

  module _ (bs : List (List E)) (pos : 0 < length bs) where
    pub view-link :
        (e : E) (j : K)
        → view h key_of (link bs e) j
          ≡ (if h.matches j (key_of e) then some e else view h key_of bs j)
    view-link e j =
        unfold link in
        rw (view-set h key_of bs j (key_of e) (e ∷ bucket h key_of bs (key_of e)) pos)
          (unfold view bucket find in ground (arith, home_congr h j (key_of e) (length bs)))

    pub view-rewrite :
        (k : K) (u : E → E)
        → ((e : E) → h.matches k (key_of e) ≡ true → h.matches (key_of (u e)) (key_of e) ≡ true)
        → (old : E) → view h key_of bs k ≡ some old
        → (j : K)
        → view h key_of (rewrite bs k u) j
          ≡ (if h.matches j k then some (u old) else view h key_of bs j)
    view-rewrite k u keeps old found j =
        let c = bucket h key_of bs k in
        unfold rewrite in
        rw (view-set h key_of bs j k (replace h key_of k u c) pos) (
          unfold view bucket in
          ground
            (arith, find-replace h key_of k u keeps j c old found, home_congr h j k (length bs)))

    pub view-cut :
        (k j : K)
        → IsSound h key_of (length bs) 0 bs
        → view h key_of (cut bs k) j ≡ (if h.matches j k then none else view h key_of bs j)
    view-cut k j sound =
        let c = bucket h key_of bs k in
        unfold cut in
        rw (view-set h key_of bs j k (unlink h key_of k c) pos) (
          unfold view bucket in
          ground (
            arith,
            find-unlink h key_of j k c (bucket-IsHoused h key_of bs k sound).0,
            home_congr h j k (length bs),
          ))

    pub length-link : (e : E) → length (flatten (link bs e)) ≡ length (flatten bs) + 1
    unfolding link bucket
    length-link e =
        let i = home h (key_of e) (length bs) in
        omega (
          arith,
          length-flatten-set bs i (e ∷ get_or bs i []) (home-lt h (key_of e) (length bs) pos),
        )

    pub length-rewrite :
        (k : K) (u : E → E)
        → ((e : E) → h.matches k (key_of e) ≡ true → h.matches (key_of (u e)) (key_of e) ≡ true)
        → length (flatten (rewrite bs k u)) ≡ length (flatten bs)
    unfolding rewrite bucket
    length-rewrite k u keeps =
        let i = home h k (length bs) in
        let c = get_or bs i [] in
        omega (
          arith,
          length-flatten-set bs i (replace h key_of k u c) (home-lt h k (length bs) pos),
          length-replace h key_of k u keeps c,
        )

    pub length-cut :
        (k : K) (old : E)
        → view h key_of bs k ≡ some old
        → length (flatten (cut bs k)) + 1 ≡ length (flatten bs)
    unfolding cut view
    length-cut k old found =
        let i = home h k (length bs) in
        let c = get_or bs i [] in
        omega (
          arith,
          length-flatten-set bs i (unlink h key_of k c) (home-lt h k (length bs) pos),
          length-unlink h key_of k c old found,
        )

    module _ (sound : IsSound h key_of (length bs) 0 bs) where
      set-IsSound :
          (k : K) (c : List E)
          → IsHoused h key_of (length bs) (home h k (length bs)) c
          → (let next = set bs (home h k (length bs)) c in IsSound h key_of (length next) 0 next)
      set-IsSound k c good =
          let i = home h k (length bs) in
          let e : 0 + i ≡ i = omega arith in
          rw (length-set bs i c) (IsSound-set h key_of (length bs) 0 bs i c sound (rw e good))

      pub link-IsSound :
          (e : E)
          → view h key_of bs (key_of e) ≡ none
          → IsSound h key_of (length (link bs e)) 0 (link bs e)
      unfolding link view
      link-IsSound e absent =
          let old = bucket-IsHoused h key_of bs (key_of e) sound in
          set-IsSound (key_of e) (e ∷ bucket h key_of bs (key_of e))
            ((absent, old.0), (refl, old.1))

      pub rewrite-IsSound :
          (k : K) (u : E → E)
          → ((e : E) → h.matches k (key_of e) ≡ true → h.matches (key_of (u e)) (key_of e) ≡ true)
          → IsSound h key_of (length (rewrite bs k u)) 0 (rewrite bs k u)
      unfolding rewrite
      rewrite-IsSound k u keeps =
          let old = bucket-IsHoused h key_of bs k sound in
          set-IsSound k (replace h key_of k u (bucket h key_of bs k)) (
            replace-IsDistinct h key_of k u keeps _ old.0,
            replace-All h key_of k u keeps
                (λ e. home h (key_of e) (length bs) ≡ home h k (length bs))
                (λ e same p. home_congr h _ _ (length bs) (keeps e same) ∙ p) _ old.1,
          )

      pub cut-IsSound : (k : K) → IsSound h key_of (length (cut bs k)) 0 (cut bs k)
      unfolding cut
      cut-IsSound k =
          let old = bucket-IsHoused h key_of bs k sound in
          set-IsSound k (unlink h key_of k (bucket h key_of bs k)) (
            unlink-IsDistinct h key_of k _ old.0,
            unlink-All h key_of (λ e. home h (key_of e) (length bs) ≡ home h k (length bs)) k _
                old.1,
          )

  module _ {κ} (P : E → Type κ) (bs : List (List E)) (all : All (All P) bs) where
    pub link-All : (e : E) → P e → All (All P) (link bs e)
    unfolding link bucket
    link-All e p = All-set P bs _ _ all (p, All-get_or P bs _ all)

    pub rewrite-All :
        (k : K) (u : E → E)
        → ((e : E) → h.matches k (key_of e) ≡ true → h.matches (key_of (u e)) (key_of e) ≡ true)
        → ((e : E) → h.matches k (key_of e) ≡ true → P e → P (u e))
        → All (All P) (rewrite bs k u)
    unfolding rewrite bucket
    rewrite-All k u keeps step =
        All-set P bs _ _ all (replace-All h key_of k u keeps P step _ (All-get_or P bs _ all))

    pub cut-All : (k : K) → All (All P) (cut bs k)
    unfolding cut bucket
    cut-All k = All-set P bs _ _ all (unlink-All h key_of P k _ (All-get_or P bs _ all))

  pub rewrite_congr :
      (bs : List (List E)) (j k : K) (u : E → E)
      → h.matches j k ≡ true
      → rewrite bs j u ≡ rewrite bs k u
  unfolding rewrite bucket
  rewrite_congr bs j k u e =
      rw (home_congr h j k (length bs) e)
        (ap (set bs (home h k (length bs))) (replace_congr h key_of j k u _ e))
