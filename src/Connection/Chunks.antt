-- ===== src/Connection/Chunks.antt =====
-- The bytes of a connection may come in any pieces: amp_consume_bytes (amp.c) goes on where it left
-- off.
use libamp.Common.{◌++◌, ◌<◌, ◌≡◌, refl, sym, ◌∙◌, arith, subst, some, All}
use libamp.CString.{Bytes}
use libamp.Memory.{Memory}
use libamp.Hashing.Buckets.{All-append}
use libamp.Box.{Box}
use libamp.Parser.Stage.{Stage}
use libamp.Parser.Represents.{Represents, Represents-error}
use libamp.Handlers.{Application}
use libamp.Connection.{Proto, Consumed, amp_consume_bytes}
use libamp.Connection.Machine.{
  Conn, waiting, stopped, starved, broken, conn_run, resume_conn, conn_run-append,
}
use libamp.Connection.Refine.{Ends, ConnAgrees, Ends-resume}
use libamp.Connection.Loop.{consume_bytes_refines}

-- All that a caller or a handler can see of two calls is the same.
abbrev pub SameOutcome : {F A S : Type 0} → Consumed F A S → Consumed F A S → Type 0
SameOutcome r q =
    (r.code ≡ q.code)
    × (r.proto.parser.error ≡ q.proto.parser.error)
    × (r.proto.box ≡ q.proto.box)
    × (r.proto.peer ≡ q.proto.peer)
    × (r.memory ≡ q.memory)

module _ {F A S : Type 0} where
  same_outcome :
      (r q : Consumed F A S) (x : Conn F A S) → ConnAgrees r x → ConnAgrees q x → SameOutcome r q
  same_outcome r q (waiting st box peer m) (c, rep, b, p, mm) (c', rep', b', p', mm') = (
    c ∙ sym c',
    Represents-error r.proto.parser st rep ∙ sym (Represents-error q.proto.parser st rep'),
    b ∙ sym b',
    p ∙ sym p',
    mm ∙ sym mm',
  )
  same_outcome r q (stopped e kept peer m) (c, n, s, b, p, mm) (c', n', s', b', p', mm') =
      (c ∙ sym c', s ∙ sym s', b ∙ sym b', p ∙ sym p', mm ∙ sym mm')
  same_outcome r q (starved peer m) h k = absurd h
  same_outcome r q broken h k = absurd h

  second_piece :
      (app : Application F A S) (r whole : Consumed F A S) (x : Conn F A S) (b : Bytes)
      → ConnAgrees r x
      → r.code ≡ 0
      → All (λ c. c < 256) b
      → Ends (resume_conn app x b)
      → ConnAgrees whole (resume_conn app x b)
      → (second : Consumed F A S) × (amp_consume_bytes app r.proto r.memory b ≡ some second)
        × SameOutcome second whole
  unfolding resume_conn
  second_piece app r whole (waiting st box peer m) b (c, rep, held, p, mm) clean bytes ends agrees =
      let run_b = conn_run app st box r.proto.peer r.memory b in
      let same : conn_run app st box peer m b ≡ run_b = rw (p, mm) refl in
      let (second, went, agrees₂) =
        consume_bytes_refines app r.proto r.memory b st box rep held bytes (subst Ends same ends) in
      (second, went, same_outcome second whole run_b agrees₂ (subst (ConnAgrees whole) same agrees))
  second_piece app r whole (stopped e kept peer m) b h clean bytes ends agrees =
      absurd (h.1 (sym h.0 ∙ clean))
  second_piece app r whole (starved peer m) b h clean bytes ends agrees = absurd h
  second_piece app r whole broken b h clean bytes ends agrees = absurd h

  -- Bytes come to a protocol object as in consume_bytes_refines, in two pieces. If amp_consume_bytes
  -- returns 0 for the first piece, then the second call returns what one call over all the bytes
  -- returns, and leaves the same error, box, waiting requests, responders, application data and
  -- memory: the application cannot tell how the bytes were cut.
  pub consume_chunks :
      (app : Application F A S) (proto : Proto F A S) (m : Memory) (a b : Bytes) (st : Stage)
      (box : Box) (r : Consumed F A S)
      → Represents proto.parser st
      → proto.box ≡ some box
      → All (λ c. c < 256) a
      → All (λ c. c < 256) b
      → Ends (conn_run app st box proto.peer m (a ++ b))
      → amp_consume_bytes app proto m a ≡ some r
      → r.code ≡ 0
      → (second whole : Consumed F A S) × (amp_consume_bytes app r.proto r.memory b ≡ some second)
        × (amp_consume_bytes app proto m (a ++ b) ≡ some whole)
        × SameOutcome second whole
  consume_chunks app proto m a b st box r rep held ha hb ends went clean =
      let split = conn_run-append app st box proto.peer m a b in
      let x = conn_run app st box proto.peer m a in
      let ends' = subst Ends split ends in
      let (r₁, went₁, agrees₁) =
        consume_bytes_refines app proto m a st box rep held ha (Ends-resume app x b ends') in
      let same₁ : r₁ ≡ r = ground (arith, went, went₁) in
      let (whole, went₂, agrees₂) =
        consume_bytes_refines app proto m (a ++ b) st box rep held
          (All-append (λ c. c < 256) a b ha hb) ends in
      let (second, went₃, outcome) =
        second_piece app r whole x b (subst (λ q. ConnAgrees q x) same₁ agrees₁) clean hb ends'
          (subst (ConnAgrees whole) split agrees₂) in
      (second, whole, went₃, went₂, outcome)
