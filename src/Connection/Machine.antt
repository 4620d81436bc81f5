-- ===== src/Connection/Machine.antt =====
-- What a connection means, byte by byte: the machine of one box, with a dispatch at the end of each.
use libamp.Common.{
  ℕ, suc, ◌+◌, ◌<◌, ◌≡◌, refl, sym, ap, ◌∙◌, arith, [], ◌∷◌, ◌++◌, Option, none, some, drop, ◌==◌,
  if◌then◌else◌,
}
use libamp.Common.Int.{to_unsigned}
use libamp.CString.{Bytes}
use libamp.Memory.{Memory}
use libamp.Box.{Box, amp_new_box}
use libamp.Parser.Stage.{
  Stage, start, zero_read, in_key, at_length, in_length, in_value, Progress, running, complete,
  failed, feed, after, run, open_key, close_pair, close_empty,
}
use libamp.Parser.Run.{resume, run-cons}
use libamp.Calls.{Peer}
use libamp.Handlers.{Application}
use libamp.Packets.{Handled, process_full_packet}

-- After some bytes: inside a box, or at an end. `starved`: there was no memory for the next box.
-- `broken`: handling a packet is undefined behaviour.
pub data Conn (F A S : Type 0) : Type 0 where
  waiting : Stage → Box → Peer F A S → Memory → Conn F A S
  stopped : ℕ → Option Box → Peer F A S → Memory → Conn F A S
  starved : Peer F A S → Memory → Conn F A S
  broken : Conn F A S

-- A box is complete at its last byte.
feed_complete :
    (st : Stage) (box box' : Box) (m m' : Memory) (c n : ℕ)
    → feed st box m c ≡ complete box' m' n
    → n ≡ 1
unfolding feed close_pair close_empty open_key
feed_complete start box box' m m' c n e = ground arith
feed_complete zero_read box box' m m' c n e = ground arith
feed_complete (in_key k ks) box box' m m' c n e = ground arith
feed_complete (at_length key) box box' m m' c n e = ground arith
feed_complete (in_length key high) box box' m m' c n e = ground arith
feed_complete (in_value key k vs) box box' m m' c n e = ground arith

after_pos : (pr : Progress) (box : Box) (m : Memory) (n : ℕ) → after 1 pr ≡ complete box m n → 0 < n
unfolding after
after_pos (running st b k) box m n e = ground arith
after_pos (complete b k i) box m n e = ground arith
after_pos (failed c b k i) box m n e = ground arith

resume_pos :
    (st : Stage) (box box' : Box) (m m' : Memory) (c : ℕ) (s : Bytes) (n : ℕ) (pr : Progress)
    → feed st box m c ≡ pr
    → resume pr 1 s ≡ complete box' m' n
    → 0 < n
unfolding resume
resume_pos st box box' m m' c s n (running st' b k) h e = after_pos (run st' b k s) box' m' n e
resume_pos st box box' m m' c s n (complete b k i) h e =
    let one = feed_complete st box b m k c i h in ground (arith, e, one)
resume_pos st box box' m m' c s n (failed x b k i) h e = ground arith

-- A run that ends a box has consumed at least a byte.
pub run-complete_pos :
    (st : Stage) (box box' : Box) (m m' : Memory) (s : Bytes) (n : ℕ)
    → run st box m s ≡ complete box' m' n
    → 0 < n
run-complete_pos st box box' m m' [] n e = absurd (unfold run in cc)
run-complete_pos st box box' m m' (c ∷ s) n e =
    resume_pos st box box' m m' c s n (feed st box m c) refl (sym (run-cons st box m c s) ∙ e)

module _ {F A S : Type 0} where
  abbrev pub new_round : Peer F A S → Option Box × Memory → Conn F A S
  new_round peer (none, m) = starved peer m
  new_round peer (some box, m) = waiting start box peer m

  -- What a packet that has been handled leaves.
  abbrev pub dispatched : Handled F A S → Conn F A S
  dispatched none = broken
  dispatched (some (ret, kept, peer, m)) =
      if to_unsigned ret == 0
      then new_round peer (amp_new_box m)
      else stopped (to_unsigned ret) kept peer m

  -- A byte at the end of a box has the packet handled.
  unfoldable pub after_feed : Application F A S → Peer F A S → Progress → Conn F A S
  after_feed app peer (running st box m) = waiting st box peer m
  after_feed app peer (failed e box m n) = stopped e (some box) peer m
  after_feed app peer (complete box m n) = dispatched (process_full_packet app peer box m)

  unfoldable pub conn_run :
      Application F A S → Stage → Box → Peer F A S → Memory → Bytes → Conn F A S
  conn_run app st box peer m [] = waiting st box peer m
  conn_run app st box peer m (c ∷ s) = elim (after_feed app peer (feed st box m c)) [
    | waiting st' box' peer' m' ↦ conn_run app st' box' peer' m' s
    | stopped e kept peer' m' ↦ stopped e kept peer' m'
    | starved peer' m' ↦ starved peer' m'
    | broken ↦ broken
  ]

  unfoldable pub resume_conn : Application F A S → Conn F A S → Bytes → Conn F A S
  resume_conn app (waiting st box peer m) s = conn_run app st box peer m s
  resume_conn app (stopped e kept peer m) s = stopped e kept peer m
  resume_conn app (starved peer m) s = starved peer m
  resume_conn app broken s = broken

  pub conn_run-cons :
      (app : Application F A S) (st : Stage) (box : Box) (peer : Peer F A S) (m : Memory) (c : ℕ)
      (s : Bytes)
      → conn_run app st box peer m (c ∷ s)
        ≡ resume_conn app (after_feed app peer (feed st box m c)) s
  unfolding conn_run resume_conn
  conn_run-cons app st box peer m c s = ground arith

  resume-stopped :
      (app : Application F A S) (x : Conn F A S) (a b : Bytes)
      → ((st : Stage) (box : Box) (peer : Peer F A S) (m : Memory)
          → conn_run app st box peer m (a ++ b) ≡ resume_conn app (conn_run app st box peer m a) b)
      → resume_conn app x (a ++ b) ≡ resume_conn app (resume_conn app x a) b
  unfolding resume_conn
  resume-stopped app (waiting st box peer m) a b h = h st box peer m
  resume-stopped app (stopped e kept peer m) a b h = refl
  resume-stopped app (starved peer m) a b h = refl
  resume-stopped app broken a b h = refl

  -- A run over all the bytes that have come is a run over the first of them, and then one over the
  -- rest.
  pub conn_run-append :
      (app : Application F A S) (st : Stage) (box : Box) (peer : Peer F A S) (m : Memory)
      (a b : Bytes)
      → conn_run app st box peer m (a ++ b) ≡ resume_conn app (conn_run app st box peer m a) b
  conn_run-append app st box peer m [] b = unfold conn_run resume_conn in refl
  conn_run-append app st box peer m (c ∷ a) b =
      conn_run-cons app st box peer m c (a ++ b)
      ∙ resume-stopped app (after_feed app peer (feed st box m c)) a b
          (λ st' box' peer' m'. conn_run-append app st' box' peer' m' a b)
      ∙ ap (λ x. resume_conn app x b) (sym (conn_run-cons app st box peer m c a))

  -- A run of the box machine, and what is left of the bytes behind it.
  unfoldable pub segment : Application F A S → Peer F A S → Progress → Bytes → Conn F A S
  segment app peer (running st box m) s = waiting st box peer m
  segment app peer (failed e box m n) s = stopped e (some box) peer m
  segment app peer (complete box m n) s =
      resume_conn app (dispatched (process_full_packet app peer box m)) (drop n s)

  segment-after :
      (app : Application F A S) (peer : Peer F A S) (pr : Progress) (c : ℕ) (s : Bytes)
      → segment app peer (after 1 pr) (c ∷ s) ≡ segment app peer pr s
  unfolding segment after
  segment-after app peer (running st box m) c s = refl
  segment-after app peer (failed e box m n) c s = refl
  segment-after app peer (complete box m n) c s = let e : 1 + n ≡ suc n = omega arith in rw e refl

  conn_run-fed :
      (app : Application F A S) (st : Stage) (box : Box) (peer : Peer F A S) (m : Memory) (c : ℕ)
      (s : Bytes) (pr : Progress)
      → feed st box m c ≡ pr
      → conn_run app st box peer m (c ∷ s) ≡ resume_conn app (after_feed app peer pr) s
  conn_run-fed app st box peer m c s pr e =
      conn_run-cons app st box peer m c s ∙ ap (λ x. resume_conn app (after_feed app peer x) s) e

  segment-fed :
      (app : Application F A S) (st : Stage) (box : Box) (peer : Peer F A S) (m : Memory) (c : ℕ)
      (s : Bytes) (pr : Progress)
      → feed st box m c ≡ pr
      → segment app peer (run st box m (c ∷ s)) (c ∷ s) ≡ segment app peer (resume pr 1 s) (c ∷ s)
  segment-fed app st box peer m c s pr e =
      ap (λ x. segment app peer x (c ∷ s)) (run-cons st box m c s ∙ ap (λ x. resume x 1 s) e)

  segment-cons :
      (app : Application F A S) (st : Stage) (box : Box) (peer : Peer F A S) (m : Memory) (c : ℕ)
      (s : Bytes) (pr : Progress)
      → feed st box m c ≡ pr
      → ((st' : Stage) (box' : Box) (m' : Memory)
          → conn_run app st' box' peer m' s ≡ segment app peer (run st' box' m' s) s)
      → conn_run app st box peer m (c ∷ s) ≡ segment app peer (run st box m (c ∷ s)) (c ∷ s)
  unfolding after_feed resume_conn segment resume
  segment-cons app st box peer m c s (running st' box' m') e ih =
      conn_run-fed app st box peer m c s _ e
      ∙ ih st' box' m'
      ∙ sym (segment-after app peer (run st' box' m' s) c s)
      ∙ sym (segment-fed app st box peer m c s _ e)
  segment-cons app st box peer m c s (failed e' box' m' n) e ih =
      conn_run-fed app st box peer m c s _ e ∙ sym (segment-fed app st box peer m c s _ e)
  segment-cons app st box peer m c s (complete box' m' n) e ih =
      conn_run-fed app st box peer m c s _ e
      ∙ ap
          (λ k.
            resume_conn app (dispatched (process_full_packet app peer box' m')) (drop k (c ∷ s)))
          (sym (feed_complete st box box' m m' c n e))
      ∙ sym (segment-fed app st box peer m c s _ e)

  -- The run of the connection, box by box.
  pub conn_run-segment :
      (app : Application F A S) (st : Stage) (box : Box) (peer : Peer F A S) (m : Memory)
      (buf : Bytes)
      → conn_run app st box peer m buf ≡ segment app peer (run st box m buf) buf
  conn_run-segment app st box peer m [] = unfold conn_run segment run in refl
  conn_run-segment app st box peer m (c ∷ s) =
      segment-cons app st box peer m c s (feed st box m c) refl
        (λ st' box' m'. conn_run-segment app st' box' peer m' s)
