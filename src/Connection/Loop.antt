-- ===== src/Connection/Loop.antt =====
-- amp_consume_bytes (amp.c) implements the byte machine of a connection.
use libamp.Common.{
  ℕ, zero, suc, ◌+◌, ◌<◌, ◌≡◌, refl, sym, arith, subst, true, false, [], ◌∷◌, some, drop, length,
  ◌==◌, All, drop_all, length-drop,
}
use libamp.CString.{Bytes}
use libamp.Memory.{Memory}
use libamp.Box.{Box}
use libamp.Parser.{Parsed, amp_parse_box}
use libamp.Parser.Stage.{Stage, Progress, running, complete, failed, run}
use libamp.Parser.Represents.{Represents, Represents-error}
use libamp.Parser.Refine.{parse_box_refines}
use libamp.Parser.Refine.Agreement.{Agrees}
use libamp.Handlers.{Application}
use libamp.Packets.{process_full_packet}
use libamp.Connection.{Proto, Consumed, dispatch_box, consume_loop, amp_consume_bytes}
use libamp.Connection.Machine.{
  dispatched, conn_run, resume_conn, segment, conn_run-segment, run-complete_pos,
}
use libamp.Parser.Refine.{All-drop}
use libamp.Connection.Refine.{Ends, ConnAgrees, Ends-resume, handled_box, Consumes, behind_packet}

full_pos :
    (r : Parsed) (pr : Progress) (total : ℕ)
    → Agrees r pr total
    → r.full ≡ true
    → ((box : Box) (m : Memory) (n : ℕ) → pr ≡ complete box m n → 0 < n)
    → 0 < r.consumed
full_pos r (running st box m) total (rep, b, mm, f, c) full h = absurd (cc)
full_pos r (complete box m n) total (rep, b, mm, f, c) full h =
    let some_bytes = h box m n refl in omega arith
full_pos r (failed e box m n) total (same, bad, b, mm, f, c) full h = absurd (cc)

module _ {F A S : Type 0} (app : Application F A S) where
  -- One round of the loop, on what amp_parse_box has left.
  consume_round :
      (fuel : ℕ) (proto : Proto F A S) (m : Memory) (c : ℕ) (s : Bytes) (r : Parsed) (pr : Progress)
      → amp_parse_box proto.parser proto.box m (c ∷ s) ≡ some r
      → Agrees r pr (length (c ∷ s))
      → 0 < fuel
      → ((next : Proto F A S) (m' : Memory) (st : Stage) (box : Box)
          → Represents next.parser st
          → next.box ≡ some box
          → r.full ≡ true
          → Ends (conn_run app st box next.peer m' (drop r.consumed (c ∷ s)))
          → Consumes app fuel next m'
              (drop r.consumed (c ∷ s))
              (conn_run app st box next.peer m' (drop r.consumed (c ∷ s))))
      → Ends (segment app proto.peer pr (c ∷ s))
      → Consumes app (suc fuel) proto m (c ∷ s) (segment app proto.peer pr (c ∷ s))
  unfolding segment consume_loop
  consume_round zero proto m c s r pr ran agrees pos ih ends = absurd (omega arith)
  consume_round (suc fuel) proto m c s r (running st box m') ran (rep, held, mem, more, all) pos ih
        ends =
      let clean : (r.parser.error == 0) ≡ true = ground (arith, Represents-error r.parser st rep) in
      let gone : drop r.consumed (c ∷ s) ≡ [] = drop_all r.consumed (c ∷ s) (omega arith) in
      (
        record {
          code = 0;
          proto = record proto { parser = r.parser; box = r.box };
          memory = r.memory;
        },
        rw (ran, more, clean, gone, consume_loop) refl,
        (refl, rep, held, refl, mem),
      )
  consume_round (suc fuel) proto m c s r (failed e box m' n) ran
        (same, bad, held, mem, more, some_bytes) pos ih ends =
      let failed_test : (r.parser.error == 0) ≡ false = ground (arith, same, bad) in
      (
        record {
          code = r.parser.error;
          proto = record proto { parser = r.parser; box = r.box };
          memory = r.memory;
        },
        rw (ran, more, failed_test, consume_loop) refl,
        (same, bad, same, held, refl, mem),
      )
  consume_round (suc fuel) proto m c s r (complete box m' n) ran (rep, held, mem, full, count) pos
        ih ends =
      let next : Proto F A S = record proto { parser = r.parser; box = r.box } in
      let h = process_full_packet app proto.peer box m' in
      let behind = drop n (c ∷ s) in
      let (d, sent, agrees) =
        handled_box app next box m' h held rep refl (Ends-resume app (dispatched h) behind ends) in
      subst
        (λ k.
          Consumes app (suc (suc fuel)) proto m (c ∷ s)
            (resume_conn app (dispatched h) (drop k (c ∷ s))))
        count
        (behind_packet app (suc fuel) proto m c s r d (dispatched h) ran full
          (subst (λ t. dispatch_box app next t ≡ some d) (sym mem) sent) agrees
          (λ st b rep' held' e. ih d.proto d.memory st b rep' held' full e)
          (subst (λ k. Ends (resume_conn app (dispatched h) (drop k (c ∷ s)))) (sym count) ends))

  loop_refines :
      (fuel : ℕ) (proto : Proto F A S) (m : Memory) (buf : Bytes) (st : Stage) (box : Box)
      → Represents proto.parser st
      → proto.box ≡ some box
      → All (λ c. c < 256) buf
      → length buf < fuel
      → Ends (conn_run app st box proto.peer m buf)
      → Consumes app fuel proto m buf (conn_run app st box proto.peer m buf)
  unfolding consume_loop conn_run
  loop_refines zero proto m buf st box rep held bytes enough ends = absurd (omega arith)
  loop_refines (suc fuel) proto m [] st box rep held bytes enough ends =
      (record { code = 0; proto = proto; memory = m }, refl, (refl, rep, held, refl, refl))
  loop_refines (suc fuel) proto m (c ∷ s) st box rep held bytes enough ends =
      let whole = conn_run-segment app st box proto.peer m (c ∷ s) in
      let pr = run st box m (c ∷ s) in
      let (r, ran, agrees) = parse_box_refines proto.parser box m (c ∷ s) st rep bytes in
      let ran' = subst (λ b. amp_parse_box proto.parser b m (c ∷ s) ≡ some r) (sym held) ran in
      subst (Consumes app (suc fuel) proto m (c ∷ s)) (sym whole) (
        consume_round fuel proto m c s r pr ran' agrees (omega arith)
          (λ next m' st' box' rep' held' full ends'.
            let some_read =
              full_pos r pr (length (c ∷ s)) agrees full
                (λ b m'' n e. run-complete_pos st box b m m'' (c ∷ s) n e) in
            loop_refines fuel next m' (drop r.consumed (c ∷ s)) st' box' rep' held'
              (All-drop r.consumed (c ∷ s) bytes)
              (omega (arith, length-drop r.consumed (c ∷ s), some_read)) ends')
          (subst Ends whole ends))

  -- A protocol object with no error, whose fields stand for what has been read of a box, is given any
  -- bytes. If the machine of the connection runs through them without starving for a new box and
  -- without undefined behaviour in a handler of packets, then amp_consume_bytes returns: it
  -- dispatches the packets that the machine dispatches, in the same order, it returns the code of the
  -- first error or 0, and the box, the waiting requests, the responders, the application's data and
  -- the memory are those of the machine, and its parsing fields stand for what the machine has read.
  pub consume_bytes_refines :
      (proto : Proto F A S) (m : Memory) (buf : Bytes) (st : Stage) (box : Box)
      → Represents proto.parser st
      → proto.box ≡ some box
      → All (λ c. c < 256) buf
      → Ends (conn_run app st box proto.peer m buf)
      → (r : Consumed F A S) × (amp_consume_bytes app proto m buf ≡ some r)
        × ConnAgrees r (conn_run app st box proto.peer m buf)
  unfolding amp_consume_bytes
  consume_bytes_refines proto m buf st box rep held bytes ends =
      let clean : (proto.parser.error == 0) ≡ true =
        ground (arith, Represents-error proto.parser st rep) in
      let (r, went, agrees) =
        loop_refines (length buf + 1) proto m buf st box rep held bytes (omega arith) ends in
      (r, rw (clean, amp_consume_bytes) went, agrees)
