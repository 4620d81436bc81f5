-- ===== src/Connection/Refine.antt =====
-- The dispatch of one packet in amp_consume_bytes (amp.c), against the machine of a connection.
use libamp.Common.{
  ℕ, suc, ◌≡◌, ◌≢◌, refl, arith, true, false, ◌∷◌, Option, none, some, drop, ◌==◌, Bool-cases, inl,
  inr,
}
use libamp.Common.Int.{ℤ, to_unsigned}
use libamp.CString.{Bytes}
use libamp.Memory.{Memory}
use libamp.Box.{Box, amp_new_box}
use libamp.Parser.{Parsed, amp_parse_box}
use libamp.Parser.Stage.{Stage, start}
use libamp.Parser.Represents.{Represents}
use libamp.Calls.{Peer}
use libamp.Handlers.{Application}
use libamp.Packets.{Handled, process_full_packet}
use libamp.Connection.{Proto, Consumed, dispatch_box, consume_loop}
use libamp.Connection.Machine.{
  Conn, waiting, stopped, starved, broken, new_round, dispatched, conn_run, resume_conn,
}

-- A run that ends for no want of memory and with no undefined behaviour.
abbrev pub Ends : {F A S : Type 0} → Conn F A S → Type 0
Ends (waiting st box peer m) = Unit
Ends (stopped e kept peer m) = Unit
Ends (starved peer m) = ⊥
Ends broken = ⊥

-- What amp_consume_bytes leaves, against the run of the machine.
abbrev pub ConnAgrees : {F A S : Type 0} → Consumed F A S → Conn F A S → Type 0
ConnAgrees c (waiting st box peer m) =
    (c.code ≡ 0)
    × Represents c.proto.parser st
    × (c.proto.box ≡ some box)
    × (c.proto.peer ≡ peer)
    × (c.memory ≡ m)
ConnAgrees c (stopped e kept peer m) =
    (c.code ≡ e)
    × (e ≢ 0)
    × (c.proto.parser.error ≡ e)
    × (c.proto.box ≡ kept)
    × (c.proto.peer ≡ peer)
    × (c.memory ≡ m)
ConnAgrees c (starved peer m) = ⊥
ConnAgrees c broken = ⊥

module _ {F A S : Type 0} (app : Application F A S) where
  pub Ends-resume : (x : Conn F A S) (s : Bytes) → Ends (resume_conn app x s) → Ends x
  unfolding resume_conn
  Ends-resume (waiting st box peer m) s h = tt
  Ends-resume (stopped e kept peer m) s h = tt
  Ends-resume (starved peer m) s h = h
  Ends-resume broken s h = h

  abbrev Dispatches : Proto F A S → Memory → Conn F A S → Type 0
  Dispatches proto m x = (d : Consumed F A S) × (dispatch_box app proto m ≡ some d) × ConnAgrees d x

  next_box :
      (proto : Proto F A S) (box : Box) (m m1 : Memory) (ret : ℤ) (kept : Option Box)
      (peer : Peer F A S) (new : Option Box × Memory)
      → proto.box ≡ some box
      → Represents proto.parser start
      → process_full_packet app proto.peer box m ≡ some (ret, kept, peer, m1)
      → (to_unsigned ret == 0) ≡ true
      → amp_new_box m1 ≡ new
      → Ends (new_round peer new)
      → Dispatches proto m (new_round peer new)
  unfolding dispatch_box
  next_box proto box m m1 ret kept peer (none, m2) held rep done good got ends = absurd ends
  next_box proto box m m1 ret kept peer (some b, m2) held rep done good got ends = (
    record {
      code = 0;
      proto = record {
        parser = record (proto.parser) { error = to_unsigned ret };
        box = some b;
        peer = peer;
      };
      memory = m2;
    },
    rw (held, done, good, got, dispatch_box) refl,
    (refl, (rep.0, rep.1, rep.2, rep.3, ground (arith, good)), refl, refl, refl),
  )

  pub handled_box :
      (proto : Proto F A S) (box : Box) (m : Memory) (h : Handled F A S)
      → proto.box ≡ some box
      → Represents proto.parser start
      → process_full_packet app proto.peer box m ≡ h
      → Ends (dispatched h)
      → Dispatches proto m (dispatched h)
  unfolding dispatch_box
  handled_box proto box m none held rep done ends = absurd ends
  handled_box proto box m (some (ret, kept, peer, m1)) held rep done ends =
      elim (Bool-cases (to_unsigned ret == 0)) [
        | inl e ↦ rw e (
            next_box proto box m m1 ret kept peer (amp_new_box m1) held rep done e refl
              (rw e at ends))
        | inr e ↦ rw e (
          record {
            code = to_unsigned ret;
            proto = record {
              parser = record (proto.parser) { error = to_unsigned ret };
              box = kept;
              peer = peer;
            };
            memory = m1;
          },
          rw (held, done, e, dispatch_box) refl,
          (refl, ground (arith, e), refl, refl, refl, refl),
        )
      ]

  abbrev pub Consumes : ℕ → Proto F A S → Memory → Bytes → Conn F A S → Type 0
  Consumes fuel proto m buf x =
      (r : Consumed F A S) × (consume_loop fuel app proto m buf ≡ some r) × ConnAgrees r x

  -- The bytes behind a packet, when its dispatch has left `x`.
  pub behind_packet :
      (fuel : ℕ) (proto : Proto F A S) (m : Memory) (c : ℕ) (s : Bytes) (r : Parsed)
      (d : Consumed F A S) (x : Conn F A S)
      → amp_parse_box proto.parser proto.box m (c ∷ s) ≡ some r
      → r.full ≡ true
      → dispatch_box app (record proto { parser = r.parser; box = r.box }) r.memory ≡ some d
      → ConnAgrees d x
      → ((st : Stage) (box : Box)
          → Represents d.proto.parser st
          → d.proto.box ≡ some box
          → Ends (conn_run app st box d.proto.peer d.memory (drop r.consumed (c ∷ s)))
          → Consumes fuel d.proto d.memory
              (drop r.consumed (c ∷ s))
              (conn_run app st box d.proto.peer d.memory (drop r.consumed (c ∷ s))))
      → Ends (resume_conn app x (drop r.consumed (c ∷ s)))
      → Consumes (suc fuel) proto m (c ∷ s) (resume_conn app x (drop r.consumed (c ∷ s)))
  unfolding consume_loop resume_conn
  behind_packet fuel proto m c s r d (waiting st box peer m') ran full sent
        (zero_code, rep, held, same, mem) ih ends =
      let (q, went, agrees) = ih st box rep held (rw (same, mem) ends) in
      (q, rw (ran, full, sent, zero_code, consume_loop) went, rw (same, mem) at agrees)
  behind_packet fuel proto m c s r d (stopped e kept peer m') ran full sent agrees ih ends =
      let failed_test : (d.code == 0) ≡ false = ground (arith, agrees.0, agrees.1) in
      (d, rw (ran, full, sent, failed_test, consume_loop) refl, agrees)
  behind_packet fuel proto m c s r d (starved peer m') ran full sent agrees ih ends = absurd ends
  behind_packet fuel proto m c s r d broken ran full sent agrees ih ends = absurd ends
