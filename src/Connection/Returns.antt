-- ===== src/Connection/Returns.antt =====
-- amp_consume_bytes (amp.c) always returns, with an allocator that does not fail and a write handler
-- that is set.
use libamp.Common.{
  ℕ, ◌≡◌, refl, arith, [], ◌∷◌, none, some, ◌==◌, All, Bool-cases, inl, inr, ◌<◌, length, ◌++◌,
}
use libamp.Common.Int.{to_unsigned}
use libamp.CString.{Bytes}
use libamp.Memory.{Memory, malloc}
use libamp.Memory.Plenty.{IsPlenty, IsPlenty-after}
use libamp.Box.{Box, amp_new_box, empty_box}
use libamp.Box.Put.{put_buf_succeeds}
use libamp.Parser.Stage.{
  Stage, start, zero_read, in_key, at_length, in_length, in_value, Progress, running, complete,
  failed, feed, open_key, close_pair, close_empty,
}
use libamp.Parser.Represents.{Represents}
use libamp.Calls.{Peer}
use libamp.Handlers.{Application}
use libamp.Packets.{Handled, process_full_packet}
use libamp.Packets.Steady.{IsSteady, Steady, process-Steady}
use libamp.Messages.Steady.{new_box_steady}
use libamp.Connection.{Proto, Consumed, amp_consume_bytes}
use libamp.Connection.Machine.{
  Conn, waiting, stopped, starved, broken, new_round, dispatched, after_feed, conn_run,
  conn_run-cons, resume_conn,
}
use libamp.Connection.Refine.{Ends, ConnAgrees}
use libamp.Connection.Loop.{consume_bytes_refines}

abbrev progress_memory : Progress → Memory
progress_memory (running st box m) = m
progress_memory (complete box m n) = m
progress_memory (failed e box m n) = m

close_pair_steady :
    (key value : Bytes) (box : Box) (m : Memory) (n : ℕ)
    → (progress_memory (close_pair key value box m n)).succeeds ≡ m.succeeds
unfolding close_pair
close_pair_steady key value box m n =
    let f = put_buf_succeeds box key value (length value) m in ground (arith, f)

feed_steady :
    (st : Stage) (box : Box) (m : Memory) (c : ℕ)
    → (progress_memory (feed st box m c)).succeeds ≡ m.succeeds
unfolding feed open_key close_empty
feed_steady start box m c = ground arith
feed_steady zero_read box m c = ground arith
feed_steady (in_key n ks) box m c = ground arith
feed_steady (at_length key) box m c = refl
feed_steady (in_length key high) box m c = refl
feed_steady (in_value key n vs) box m c =
    let f = close_pair_steady key [] box m 0 in
    let g = close_pair_steady key (vs ++ c ∷ []) box m 1 in ground (arith, f, g)

abbrev HasRoom : {F A S : Type 0} → Conn F A S → Type 0
HasRoom (waiting st box peer m) = IsPlenty m
HasRoom (stopped e kept peer m) = Unit
HasRoom (starved peer m) = ⊥
HasRoom broken = ⊥

new_box-plenty : (m : Memory) → IsPlenty m → (b : Box) × ((amp_new_box m).0 ≡ some b)
unfolding amp_new_box malloc
new_box-plenty m h = let got = h m.calls in (empty_box, ground (arith, got))

module _ {F A S : Type 0} (app : Application F A S) (steady : IsSteady app) where
  new_round-HasRoom :
      (peer : Peer F A S) (m : Memory) → IsPlenty m → HasRoom (new_round peer (amp_new_box m))
  new_round-HasRoom peer m h =
      let (b, got) = new_box-plenty m h in
      rw got (IsPlenty-after m (amp_new_box m).1 (new_box_steady m) h)

  dispatched-HasRoom :
      (m : Memory) (h : Handled F A S) → Steady app steady m h → IsPlenty m → HasRoom (dispatched h)
  dispatched-HasRoom m none s h = absurd (cc)
  dispatched-HasRoom m (some (ret, kept, peer, m')) s h = elim (Bool-cases (to_unsigned ret == 0)) [
    | inl e ↦ rw e (new_round-HasRoom peer m' (IsPlenty-after m m' s.1 h))
    | inr e ↦ rw e tt
  ]

  after_feed-HasRoom :
      (peer : Peer F A S) (pr : Progress)
      → IsPlenty (progress_memory pr)
      → HasRoom (after_feed app peer pr)
  unfolding after_feed
  after_feed-HasRoom peer (running st box m) h = h
  after_feed-HasRoom peer (failed e box m n) h = tt
  after_feed-HasRoom peer (complete box m n) h =
      dispatched-HasRoom m (process_full_packet app peer box m)
        (process-Steady app steady peer box m) h

  resume-Ends :
      (x : Conn F A S) (s : Bytes)
      → HasRoom x
      → ((st : Stage) (box : Box) (peer : Peer F A S) (m : Memory)
          → IsPlenty m
          → Ends (conn_run app st box peer m s))
      → Ends (resume_conn app x s)
  unfolding resume_conn
  resume-Ends (waiting st box peer m) s h ih = ih st box peer m h
  resume-Ends (stopped e kept peer m) s h ih = tt
  resume-Ends (starved peer m) s h ih = h
  resume-Ends broken s h ih = h

  pub conn_run-Ends :
      (st : Stage) (box : Box) (peer : Peer F A S) (m : Memory) (buf : Bytes)
      → IsPlenty m
      → Ends (conn_run app st box peer m buf)
  conn_run-Ends st box peer m [] h = unfold conn_run in tt
  conn_run-Ends st box peer m (c ∷ s) h = rw (conn_run-cons app st box peer m c s) (
      resume-Ends (after_feed app peer (feed st box m c)) s
        (after_feed-HasRoom peer (feed st box m c)
          (IsPlenty-after m (progress_memory (feed st box m c)) (feed_steady st box m c) h))
        (λ st' box' peer' m' h'. conn_run-Ends st' box' peer' m' s h'))

  -- On a protocol object whose parsing fields stand for a stage of the parser, which they do not
  -- behind an error, and whose box is not NULL, with an allocator that never fails, a write handler
  -- that is set, and handlers that leave the allocator alone: amp_consume_bytes over any list of byte
  -- values returns, so its loop ends, no buffer is overrun and no null pointer is followed. It has
  -- run as the machine of the connection runs from that stage and that box.
  pub consume_bytes_returns :
      (proto : Proto F A S) (m : Memory) (buf : Bytes) (st : Stage) (box : Box)
      → Represents proto.parser st
      → proto.box ≡ some box
      → All (λ c. c < 256) buf
      → IsPlenty m
      → (r : Consumed F A S) × (amp_consume_bytes app proto m buf ≡ some r)
        × ConnAgrees r (conn_run app st box proto.peer m buf)
  consume_bytes_returns proto m buf st box rep held bytes h =
      consume_bytes_refines app proto m buf st box rep held bytes
        (conn_run-Ends st box proto.peer m buf h)
