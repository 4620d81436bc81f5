-- ===== src/Rpc/Request.antt =====
-- amp_call on one side calls the responder on the other side (amp.c).
use libamp.Common.{
  ℕ, ◌+◌, ◌%◌, ◌^◌, ◌≡◌, refl, ap, ◌∙◌, arith, false, [], ◌∷◌, ◌++◌, none, some, length, take_all,
}
use libamp.Common.Int.{pos}
use libamp.CString.{Bytes, str_eq}
use libamp.Memory.{Memory}
use libamp.Memory.Plenty.{IsPlenty, IsPlenty-after}
use libamp.Errors.{ok}
use libamp.Box.{Box, get_buf, empty_box}
use libamp.Box.Stored.{IsGood}
use libamp.Box.Serialize.{amp_serialize_box}
use libamp.Types.Decimal.{show_ℕ}
use libamp.Types.Stored.{IsText}
use libamp.Table.Laws.{IsTable}
use libamp.Dispatch.{Callback, Responder, callback_key, get_responder}
use libamp.Messages.{Chunk, Request, command_key, ask}
use libamp.Parser.Stage.{start}
use libamp.Parser.Represents.{Represents}
use libamp.Calls.{Peer, WriteHandler, Output, amp_call}
use libamp.Calls.Written.{IsCall, IsCalling, called, call_written}
use libamp.Handlers.{Application}
use libamp.Packets.{process_full_packet}
use libamp.Packets.Steady.{IsSteady}
use libamp.Packets.Commands.{chunk_of, optional_chunk_of, request_of, command_calls_responder}
use libamp.Connection.{Proto, Consumed, amp_consume_bytes}
use libamp.Rpc.Packet.{IsCopy, IsReady, packet_delivered}

-- All of a text, and a NUL byte.
abbrev pub text_chunk : Bytes → Chunk
text_chunk text = record { value = text ++ 0 ∷ []; size = length text }

pub chunk_of-text : (text : Bytes) → chunk_of (text, length text) ≡ text_chunk text
chunk_of-text text = rw (take_all (length text) text (omega arith)) refl

-- The request that a responder is given: the command, the ask key, and the arguments beside them.
pub record IsRequest (command : Bytes) (key : ℕ) (args : Box) (r : Request) : Type 0 where
  pub copy : Box
  pub copied : r.args ≡ some copy
  pub named : r.command ≡ text_chunk command
  pub asked : r.ask_key ≡ some (text_chunk (show_ℕ key))
  pub same :
      (j : Bytes)
      → str_eq j command_key ≡ false
      → str_eq j ask ≡ false
      → get_buf copy j ≡ get_buf args j

pub request_of_call :
    (command : Bytes) (key : ℕ) (args packet copy : Box) (m m' : Memory)
    → IsCall args command key packet
    → IsCopy packet m copy m'
    → IsRequest command key args (request_of copy (command, length command))
request_of_call command key args packet copy m m' call c = record {
  copy = copy;
  copied = refl;
  named = chunk_of-text command;
  asked =
      ap optional_chunk_of (c.same ask ∙ call.asked)
      ∙ ap (λ c. some c) (chunk_of-text (show_ℕ key));
  same = λ j p q. c.same j ∙ call.args_kept j p q;
}

module _ {F A S : Type 0} where
  -- The call of a responder that a command is.
  responder_called :
      (app : Application F A S)
      → IsSteady app
      → (peer : Peer F A S) (args packet copy : Box) (command : Bytes) (key : ℕ) (m m1 : Memory)
        (responder : Responder F A)
      → IsCall args command key packet
      → IsCopy packet m copy m1
      → IsPlenty m
      → get_responder peer.responders (text_chunk command).value ≡ some responder
      → (request : Request) × (m2 : Memory) × IsRequest command key args request
        × IsPlenty m2
        × (let (peer', m3) = app.respond responder.func responder.arg request peer m2 in
            (process_full_packet app peer copy m1 ≡ some (pos 0, none, peer', m3)) × IsPlenty m3)
  responder_called app steady peer args packet copy command key m m1 responder call c plenty known =
      let found : Bytes × ℕ = (command, length command) in
      let request = request_of copy found in
      let name = ap (λ c. c.value) (chunk_of-text command) in
      let (m2, same, went) =
        command_calls_responder app peer copy m1 found responder c.valid
          (IsPlenty-after m m1 c.steady plenty) (c.same command_key ∙ call.named)
          (ap (λ n. get_responder peer.responders n) name ∙ known) in
      let m3 = (app.respond responder.func responder.arg request peer m2).1 in
      (
        request,
        m2,
        request_of_call command key args packet copy m m1 call c,
        IsPlenty-after m m2 (same ∙ c.steady) plenty,
        (
          went,
          IsPlenty-after m m3
              (steady.respond responder.func responder.arg request peer m2 ∙ same ∙ c.steady)
              plenty,
        ),
      )

  -- The packet of a call, given to the other side.
  pub packet_reaches_responder :
      (args packet : Box) (command bytes : Bytes) (key : ℕ) (m0 : Memory) (app : Application F A S)
      (proto : Proto F A S) (responder : Responder F A) (m' : Memory)
      → IsCall args command key packet
      → (amp_serialize_box packet m0).0 ≡ ok (bytes, length bytes)
      → IsSteady app
      → Represents proto.parser start
      → proto.box ≡ some empty_box
      → get_responder proto.peer.responders (text_chunk command).value ≡ some responder
      → IsPlenty m'
      → (request : Request) × (m3 : Memory) × (r : Consumed F A S) × IsRequest command key args
          request
        × IsPlenty m3
        × (amp_consume_bytes app proto m' bytes ≡ some r)
        × (let (peer', m4) = app.respond responder.func responder.arg request proto.peer m3 in
            IsReady r peer' m4 × IsPlenty m4)
  packet_reaches_responder args packet command bytes key m0 app proto responder m' call written
        steady rep held known plenty =
      let (copy, m1, c, handled) =
        packet_delivered app steady proto packet m0 m' bytes rep held call.good.valid
          call.good.octets plenty written in
      let (request, m3, is_request, before_plenty, (done, plenty3)) =
        responder_called app steady proto.peer args packet copy command key m' m1 responder call c
          plenty known in
      let (peer', m4) = app.respond responder.func responder.arg request proto.peer m3 in
      let (r, consumed, ready) = handled (pos 0) none peer' m4 done refl plenty3 in
      (request, m3, r, is_request, before_plenty, consumed, (ready, plenty3))

module _ {F A S F' A' S' : Type 0} where
  -- A call from one side to the other. The caller has a write handler and a well-formed map of
  -- requests, its command and arguments fit a packet, and neither side's allocator fails. The other
  -- side's protocol object is at the start of a box, with handlers that leave the allocator as it is
  -- and a responder for the command. Then amp_call hands the write handler the bytes of one packet,
  -- when the callback waits under the next ask key. These bytes, given to the other side, call the
  -- responder once, with its argument and a request that has the command, the ask key, and the
  -- arguments under their keys, and finds memory. amp_consume_bytes returns 0 with what the responder leaves, and that
  -- side is at the start of the next box.
  pub call_reaches_responder :
      (w : WriteHandler F A S) (out : Output F A S) (garbage : ℕ) (peer : Peer F A S)
      (command : Bytes) (args : Box) (func : F) (arg : A) (m : Memory) (app : Application F' A' S')
      (proto : Proto F' A' S') (responder : Responder F' A') (m' : Memory)
      → out.write ≡ some w
      → IsTable callback_key peer.outstanding_requests
      → IsText command
      → IsGood args
      → IsPlenty m
      → IsSteady app
      → Represents proto.parser start
      → proto.box ≡ some empty_box
      → get_responder proto.peer.responders (text_chunk command).value ≡ some responder
      → IsPlenty m'
      → (let key = (peer.last_ask_key + 1) % 2 ^ 32 in
          let cb : Callback F A = record { ask_key = garbage; func = func; arg = arg } in
          (packet : Box) × (bytes : Bytes) × (before : Peer F A S) × (m2 : Memory)
          × (request : Request) × (m3 : Memory) × (r : Consumed F' A' S') × IsCalling peer key cb
              before
          × (amp_call out garbage peer command args func arg m
              ≡ called w bytes before m2 key packet)
          × IsRequest command key args request
          × IsPlenty m3
          × (amp_consume_bytes app proto m' bytes ≡ some r)
          × (let (peer', m4) = app.respond responder.func responder.arg request proto.peer m3 in
              IsReady r peer' m4))
  call_reaches_responder w out garbage peer command args func arg m app proto responder m' set v
        text good plenty steady rep held known plenty' =
      let key = (peer.last_ask_key + 1) % 2 ^ 32 in
      let (packet, bytes, before, m1, m2, call, waits, plenty2, written, went) =
        call_written w out garbage peer command args func arg m set v text good plenty in
      let (request, m3, r, is_request, before_plenty, consumed, (ready, after_plenty)) =
        packet_reaches_responder args packet command bytes key m1 app proto responder m' call
          written steady rep held known plenty' in
      (
        packet, bytes, before, m2, request, m3, r, waits, went, is_request, before_plenty, consumed,
        ready,
      )
