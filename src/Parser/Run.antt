-- ===== src/Parser/Run.antt =====
-- Laws of runs of the byte machine of amp_parse_box (amp.c).
use libamp.Common.{
  ℕ, suc, ◌+◌, ◌<◌, ◌≡◌, refl, sym, ap, ◌∙◌, arith, true, false, [], ◌∷◌, ◌++◌, length, ◌==◌,
  append_assoc, append-nil, Bool-cases, inl, inr, length-append,
}
use libamp.Common.Int.{pos}
use libamp.CString.{Bytes}
use libamp.Memory.{Memory}
use libamp.Box.{Box, put_buf}
use libamp.Parser.Stage.{
  Stage, start, in_key, at_length, in_value, Progress, running, complete, failed, open_key,
  close_pair, close_empty, feed, after, run,
}

pub after_zero : (r : Progress) → after 0 r ≡ r
unfolding after
after_zero (running st box m) = refl
after_zero (complete box m n) = ap (complete box m) (omega arith)
after_zero (failed e box m n) = ap (failed e box m) (omega arith)

pub after-after : (a b c : ℕ) (r : Progress) → c ≡ a + b → after a (after b r) ≡ after c r
unfolding after
after-after a b c (running st box m) e = refl
after-after a b c (complete box m n) e = ap (complete box m) (omega arith)
after-after a b c (failed e' box m n) e = ap (failed e' box m) (omega arith)

-- A run goes on with more bytes.
unfoldable pub resume : Progress → ℕ → Bytes → Progress
resume (running st box m) n s = after n (run st box m s)
resume (complete box m k) n s = complete box m k
resume (failed e box m k) n s = failed e box m k

pub run-cons :
    (st : Stage) (box : Box) (m : Memory) (c : ℕ) (s : Bytes)
    → run st box m (c ∷ s) ≡ resume (feed st box m c) 1 s
unfolding run resume
run-cons st box m c s = ground arith

resume-after :
    (k n t : ℕ) (r : Progress) (b : Bytes)
    → t ≡ k + n
    → resume (after k r) t b ≡ after k (resume r n b)
unfolding resume
resume-after k n t (running st box m) b e =
    unfold after in sym (after-after k n t (run st box m b) e)
resume-after k n t (complete box m i) b e = unfold after in refl
resume-after k n t (failed c box m i) b e = unfold after in refl

-- A run over two parts is a run over the first, gone on with over the second.
pub run-append :
    (st : Stage) (box : Box) (m : Memory) (a b : Bytes)
    → run st box m (a ++ b) ≡ resume (run st box m a) (length a) b
unfolding resume after
run-append st box m [] b = unfold run in sym (after_zero (run st box m b))
run-append st box m (c ∷ a) b =
    run-cons st box m c (a ++ b)
    ∙ go (feed st box m c) (λ st' box' m'. run-append st' box' m' a b)
    ∙ ap (λ r. resume r (suc (length a)) b) (sym (run-cons st box m c a))
  where
    go :
        (r : Progress)
        → ((st' : Stage) (box' : Box) (m' : Memory)
            → run st' box' m' (a ++ b) ≡ resume (run st' box' m' a) (length a) b)
        → resume r 1 (a ++ b) ≡ resume (resume r 1 a) (suc (length a)) b
    go (running st' box' m') ih =
        ap (after 1) (ih st' box' m')
        ∙ sym (resume-after 1 (length a) (suc (length a)) (run st' box' m' a) b (omega arith))
    go (complete box' m' n) ih = unfold resume in refl
    go (failed e box' m' n) ih = unfold resume in refl

resume_running :
    (r : Progress) (st : Stage) (box : Box) (m : Memory) (s : Bytes)
    → r ≡ running st box m
    → resume r 1 s ≡ after 1 (run st box m s)
unfolding resume
resume_running r st box m s e = rw (e, resume)

feed-in_key_more :
    (n : ℕ) (ks : Bytes) (box : Box) (m : Memory) (c : ℕ)
    → suc (length ks) < n
    → feed (in_key n ks) box m c ≡ running (in_key n (ks ++ c ∷ [])) box m
unfolding feed
feed-in_key_more n ks box m c h = ground arith

feed-in_key_last :
    (n : ℕ) (ks : Bytes) (box : Box) (m : Memory) (c : ℕ)
    → suc (length ks) ≡ n
    → feed (in_key n ks) box m c ≡ running (at_length (ks ++ c ∷ [])) box m
unfolding feed
feed-in_key_last n ks box m c h = ground arith

feed-in_value_more :
    (key : Bytes) (n : ℕ) (vs : Bytes) (box : Box) (m : Memory) (c : ℕ)
    → suc (length vs) < n
    → feed (in_value key n vs) box m c ≡ running (in_value key n (vs ++ c ∷ [])) box m
unfolding feed
feed-in_value_more key n vs box m c h = ground arith

feed-in_value_last :
    (key : Bytes) (n : ℕ) (vs : Bytes) (box : Box) (m : Memory) (c : ℕ)
    → suc (length vs) ≡ n
    → feed (in_value key n vs) box m c ≡ close_pair key (vs ++ c ∷ []) box m 1
unfolding feed
feed-in_value_last key n vs box m c h = ground arith

-- One byte more at the end of a list.
shift : (ks : Bytes) (x : ℕ) (xs : Bytes) → (ks ++ x ∷ []) ++ xs ≡ ks ++ x ∷ xs
shift ks x xs = append_assoc ks (x ∷ []) xs

length-snoc : (ks : Bytes) (x : ℕ) → length (ks ++ x ∷ []) ≡ suc (length ks)
length-snoc ks x = omega (arith, length-append ks (x ∷ []))

-- One byte of a run.
pub run_step :
    (st st' : Stage) (box : Box) (m : Memory) (c : ℕ) (s : Bytes)
    → feed st box m c ≡ running st' box m
    → run st box m (c ∷ s) ≡ after 1 (run st' box m s)
run_step st st' box m c s e = run-cons st box m c s ∙ resume_running _ st' box m s e

pub run_complete :
    (st : Stage) (box box' : Box) (m m' : Memory) (c n : ℕ) (s : Bytes)
    → feed st box m c ≡ complete box' m' n
    → run st box m (c ∷ s) ≡ complete box' m' n
run_complete st box box' m m' c n s e = run-cons st box m c s ∙ (unfold resume in rw e)

pub run_failed :
    (st : Stage) (box box' : Box) (m m' : Memory) (c n e : ℕ) (s : Bytes)
    → feed st box m c ≡ failed e box' m' n
    → run st box m (c ∷ s) ≡ failed e box' m' n
run_failed st box box' m m' c n e s q = run-cons st box m c s ∙ (unfold resume in rw q)

-- Part of a key.
pub run-in_key :
    (n : ℕ) (ks xs rest : Bytes) (box : Box) (m : Memory)
    → length ks + length xs < n
    → run (in_key n ks) box m (xs ++ rest)
      ≡ after (length xs) (run (in_key n (ks ++ xs)) box m rest)
run-in_key n ks [] rest box m h = rw append-nil (sym (after_zero _))
run-in_key n ks (x ∷ xs) rest box m h =
    run-cons (in_key n ks) box m x (xs ++ rest)
    ∙ resume_running _ _ box m (xs ++ rest) (feed-in_key_more n ks box m x (omega arith))
    ∙ ap (after 1) (run-in_key n (ks ++ x ∷ []) xs rest box m (omega (arith, length-snoc ks x)))
    ∙ after-after 1 (length xs) (suc (length xs)) _ (omega arith)
    ∙ ap (λ k. after (suc (length xs)) (run (in_key n k) box m rest)) (shift ks x xs)

-- The rest of a key.
pub run-in_key_end :
    (n : ℕ) (ks xs rest : Bytes) (box : Box) (m : Memory)
    → length ks + length xs ≡ n
    → length ks < n
    → run (in_key n ks) box m (xs ++ rest)
      ≡ after (length xs) (run (at_length (ks ++ xs)) box m rest)
run-in_key_end n ks [] rest box m e h = absurd (omega arith)
run-in_key_end n ks (x ∷ []) rest box m e h =
    run-cons (in_key n ks) box m x rest
    ∙ resume_running _ _ box m rest (feed-in_key_last n ks box m x (omega arith))
run-in_key_end n ks (x ∷ y ∷ xs) rest box m e h =
    run-cons (in_key n ks) box m x (y ∷ xs ++ rest)
    ∙ resume_running _ _ box m (y ∷ xs ++ rest) (feed-in_key_more n ks box m x (omega arith))
    ∙ ap (after 1) (
        run-in_key_end n (ks ++ x ∷ []) (y ∷ xs) rest box m (omega (arith, length-snoc ks x))
          (omega (arith, length-snoc ks x)))
    ∙ after-after 1 (suc (length xs)) (suc (suc (length xs))) _ (omega arith)
    ∙ ap (λ k. after (suc (suc (length xs))) (run (at_length k) box m rest)) (shift ks x (y ∷ xs))

-- Part of a value.
pub run-in_value :
    (key : Bytes) (n : ℕ) (vs xs rest : Bytes) (box : Box) (m : Memory)
    → length vs + length xs < n
    → run (in_value key n vs) box m (xs ++ rest)
      ≡ after (length xs) (run (in_value key n (vs ++ xs)) box m rest)
run-in_value key n vs [] rest box m h = rw append-nil (sym (after_zero _))
run-in_value key n vs (x ∷ xs) rest box m h =
    run-cons (in_value key n vs) box m x (xs ++ rest)
    ∙ resume_running _ _ box m (xs ++ rest) (feed-in_value_more key n vs box m x (omega arith))
    ∙ ap (after 1)
        (run-in_value key n (vs ++ x ∷ []) xs rest box m (omega (arith, length-snoc vs x)))
    ∙ after-after 1 (length xs) (suc (length xs)) _ (omega arith)
    ∙ ap (λ k. after (suc (length xs)) (run (in_value key n k) box m rest)) (shift vs x xs)

after-close_pair :
    (key value : Bytes) (box : Box) (m : Memory) (k t : ℕ) (rest : Bytes)
    → t ≡ suc k
    → after 1 (resume (close_pair key value box m k) k rest)
      ≡ resume (close_pair key value box m t) t rest
unfolding close_pair resume after
after-close_pair key value box m k t rest e =
    let put = put_buf box key value (pos (length value)) m in
    elim (Bool-cases (put.0 == 0)) [
      | inl stored ↦ rw stored (after-after 1 k t (run start put.1 put.2 rest) (omega arith))
      | inr refused ↦ rw refused (ap (failed put.0 put.1 put.2) (omega arith))
    ]

-- The rest of a value that has bytes.
pub run-in_value_end :
    (key : Bytes) (n : ℕ) (vs xs rest : Bytes) (box : Box) (m : Memory)
    → length vs + length xs ≡ n
    → length vs < n
    → run (in_value key n vs) box m (xs ++ rest)
      ≡ resume (close_pair key (vs ++ xs) box m (length xs)) (length xs) rest
run-in_value_end key n vs [] rest box m e h = absurd (omega arith)
run-in_value_end key n vs (x ∷ []) rest box m e h =
    run-cons (in_value key n vs) box m x rest
    ∙ ap (λ r. resume r 1 rest) (feed-in_value_last key n vs box m x (omega arith))
run-in_value_end key n vs (x ∷ y ∷ xs) rest box m e h =
    run-cons (in_value key n vs) box m x (y ∷ xs ++ rest)
    ∙ resume_running _ _ box m (y ∷ xs ++ rest) (feed-in_value_more key n vs box m x (omega arith))
    ∙ ap (after 1) (
        run-in_value_end key n (vs ++ x ∷ []) (y ∷ xs) rest box m (omega (arith, length-snoc vs x))
          (omega (arith, length-snoc vs x)))
    ∙ after-close_pair key ((vs ++ x ∷ []) ++ y ∷ xs) box m (suc (length xs))
        (suc (suc (length xs))) rest refl
    ∙ ap (λ k. resume (close_pair key k box m (suc (suc (length xs)))) (suc (suc (length xs))) rest)
        (shift vs x (y ∷ xs))

feed-start : (box : Box) (m : Memory) (c : ℕ) → feed start box m c ≡ open_key box m c
unfolding feed
feed-start box m c = refl

close_empty-stored :
    (key : Bytes) (box : Box) (m : Memory) (c : ℕ) (e : ℕ) (box' : Box) (m' : Memory)
    → put_buf box key [] (pos 0) m ≡ (e, box', m')
    → (e == 0) ≡ true
    → (close_empty key box m c ≡ open_key box' m' c)
      × (close_pair key [] box m 0 ≡ running start box' m')
unfolding close_empty close_pair
close_empty-stored key box m c e box' m' p q = (rw (p, close_empty, q), rw (p, close_pair, q))

close_empty-refused :
    (key : Bytes) (box : Box) (m : Memory) (c : ℕ) (e : ℕ) (box' : Box) (m' : Memory)
    → put_buf box key [] (pos 0) m ≡ (e, box', m')
    → (e == 0) ≡ false
    → (close_empty key box m c ≡ failed e box' m' 0)
      × (close_pair key [] box m 0 ≡ failed e box' m' 0)
unfolding close_empty close_pair
close_empty-refused key box m c e box' m' p q = (rw (p, close_empty, q), rw (p, close_pair, q))

resume-close_empty :
    (key : Bytes) (box : Box) (m : Memory) (c : ℕ) (s : Bytes)
    → resume (close_empty key box m c) 1 s ≡ resume (close_pair key [] box m 0) 0 (c ∷ s)
resume-close_empty key box m c s =
    let put = put_buf box key [] (pos 0) m in
    elim (Bool-cases (put.0 == 0)) [
      | inl q ↦
          let (a, b) = close_empty-stored key box m c put.0 put.1 put.2 refl q in
          rw (a, b)
            (ap (λ r. resume r 1 s) (sym (feed-start put.1 put.2 c))
              ∙ sym (run-cons start put.1 put.2 c s)
              ∙ sym (unfold resume in after_zero (run start put.1 put.2 (c ∷ s))))
      | inr q ↦
          let (a, b) = close_empty-refused key box m c put.0 put.1 put.2 refl q in
          rw (a, b) (unfold resume in refl)
    ]

-- A value without bytes.
pub run-in_value_empty :
    (key : Bytes) (box : Box) (m : Memory) (c : ℕ) (s : Bytes)
    → run (in_value key 0 []) box m (c ∷ s) ≡ resume (close_pair key [] box m 0) 0 (c ∷ s)
unfolding feed close_empty resume
run-in_value_empty key box m c s =
    run-cons (in_value key 0 []) box m c s ∙ resume-close_empty key box m c s
