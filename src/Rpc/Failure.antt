-- ===== src/Rpc/Failure.antt =====
-- amp_call of a command that has no responder calls the callback with an error (amp.c).
use libamp.Common.{
  ℕ, ◌+◌, ◌%◌, ◌^◌, ◌<◌, ◌≤◌, ◌≡◌, refl, sym, ap, ◌∙◌, arith, subst, false, Option, none, some,
  length,
}
use libamp.Common.Int.{ℤ, pos, to_unsigned}
use libamp.CString.{Bytes}
use libamp.Memory.{Memory}
use libamp.Memory.Plenty.{IsPlenty, IsPlenty-after}
use libamp.Errors.{ok, is_ok}
use libamp.Box.{Box, get_buf, empty_box, amp_num_keys, amp_has_key}
use libamp.Box.Valid.{has_key-get_buf}
use libamp.Box.Plenty.{found-length}
use libamp.Box.Stored.{IsGood}
use libamp.Buftoll.Correct.{no_sign}
use libamp.Types.{amp_get_int}
use libamp.Types.Decimal.{show_ℕ}
use libamp.Types.Texts.{read_int, buftoll-decimal}
use libamp.Types.Stored.{IsText}
use libamp.Table.Laws.{IsTable}
use libamp.Dispatch.{Callback, callback_key, free_callback, get_responder}
use libamp.Messages.{
  Error, failure, command_key, answer, error, error_code_key, error_descr_key, amp_free_request,
}
use libamp.Parser.Stage.{start}
use libamp.Parser.Represents.{Represents}
use libamp.Calls.{Peer, WriteHandler, Output, amp_call}
use libamp.Calls.Laws.{outstanding}
use libamp.Calls.Written.{IsCalling, called, call_written}
use libamp.Handlers.{Application}
use libamp.Handlers.Refusal.{IsRefusal, unhandled, refused}
use libamp.Packets.{process_full_packet}
use libamp.Packets.Answers.{Without}
use libamp.Packets.Commands.{optional_chunk_of}
use libamp.Packets.Failures.{error_of, error_calls_back}
use libamp.Packets.Steady.{IsSteady, process-Steady, memory_of}
use libamp.Connection.{Proto, Consumed, amp_consume_bytes}
use libamp.Rpc.Packet.{IsCopy, IsReady, packet_delivered}
use libamp.Rpc.Request.{text_chunk, chunk_of-text}
use libamp.Rpc.Refusal.{refusal_text, logged, command_refused}

get_int-show_ℕ :
    (box : Box) (key : Bytes) (v : ℕ)
    → v < 2 ^ 31
    → get_buf box key ≡ ok (show_ℕ v, length (show_ℕ v))
    → amp_get_int box key ≡ ok (pos v)
unfolding show_ℕ
get_int-show_ℕ box key v h found =
    read_int box key (show_ℕ v) found (pos v) (omega arith)
      (buftoll-decimal no_sign v (omega arith) (omega arith))

module _ {F A S : Type 0} where
  -- The memory behind a packet is as plentiful as before.
  handled-IsPlenty :
      (app : Application F A S)
      → IsSteady app
      → (peer : Peer F A S) (copy : Box) (m m1 : Memory) (ret : ℤ) (kept : Option Box)
        (peer' : Peer F A S) (m2 : Memory)
      → m1.succeeds ≡ m.succeeds
      → IsPlenty m
      → process_full_packet app peer copy m1 ≡ some (ret, kept, peer', m2)
      → IsPlenty m2
  handled-IsPlenty app steady peer copy m m1 ret kept peer' m2 same plenty done =
      IsPlenty-after m m2
        (sym (ap (λ h. (memory_of m1 h).succeeds) done)
          ∙ (process-Steady app steady peer copy m1).1
          ∙ same)
        plenty

  -- The call of a callback that a refusal is.
  failure_called :
      (app : Application F A S)
      → (peer : Peer F A S) (reply copy : Box) (text : Bytes) (key : ℕ) (m m1 : Memory)
        (cb : Callback F A)
      → IsRefusal (show_ℕ key) text reply
      → IsCopy reply m copy m1
      → IsPlenty m
      → key < 2 ^ 31
      → IsTable callback_key peer.outstanding_requests
      → outstanding peer key ≡ some cb
      → (e : Error) × (before : Peer F A S) × (m2 : Memory) × (e.error_code
          ≡ some (text_chunk unhandled))
        × (e.error_descr ≡ some (text_chunk text))
        × Without peer key before
        × (let (peer', m3) = app.call_back cb.func cb.arg (failure e) before m2 in
            process_full_packet app peer copy m1 ≡ some (pos 0, none, peer', free_callback cb m3))
  unfolding amp_num_keys
  failure_called app peer reply copy text key m m1 cb s c plenty small v known =
      let asked = c.same error ∙ s.asked in
      let absent = λ (k : Bytes) (e : amp_has_key reply k ≡ false).
        has_key-get_buf copy k c.valid
        ∙ ap is_ok (c.same k)
        ∙ sym (has_key-get_buf reply k s.good.valid)
        ∙ e in
      let same : to_unsigned (pos key) ≡ key = omega (arith, small) in
      let found_key : outstanding peer (to_unsigned (pos key)) ≡ some cb =
        ap (λ k. outstanding peer k) same ∙ known in
      let (before, m2, without, done) =
        error_calls_back app peer copy m1 (pos key) cb v c.valid
          (IsPlenty-after m m1 c.steady plenty)
          (found-length copy error (show_ℕ key, length (show_ℕ key)) c.valid asked)
          (absent command_key s.no_command) (absent answer s.no_answer)
          (has_key-get_buf copy error c.valid ∙ ap is_ok asked)
          (get_int-show_ℕ copy error key small asked) found_key in
      (
        error_of copy (pos key),
        before,
        m2,
        ap optional_chunk_of (c.same error_code_key ∙ s.coded)
            ∙ ap (λ x. some x) (chunk_of-text unhandled),
        ap optional_chunk_of (c.same error_descr_key ∙ s.described)
            ∙ ap (λ x. some x) (chunk_of-text text),
        subst (λ k. Without peer k before) same without,
        done,
      )

module _ {F A S F' A' S' : Type 0} where
  -- A call that is refused. The caller has a write handler and a well-formed map of requests, its
  -- command and arguments fit a packet, and the next ask key is below 2 ^ 31. The other side has no
  -- responder for the command, of at most 65514 bytes, and a write handler that answers 0. Both
  -- protocol objects that take bytes are at the start of a box, with handlers that leave the allocator
  -- as it is, and the caller's still waits under the key of the call. No allocator fails. Then the
  -- bytes that amp_call hands to its write handler, given to the other side, make it log a message
  -- and hand the bytes of one packet to its own. These, given to the caller, call the callback once,
  -- with its argument and an error that has the code UNHANDLED and names the command, when the
  -- request waits no more. Both sides are then at the start of the next box.
  pub refused_call_reaches_callback :
      (w : WriteHandler F A S) (out : Output F A S) (garbage : ℕ) (peer : Peer F A S)
      (command : Bytes) (args : Box) (func : F) (arg : A) (m : Memory) (app : Application F' A' S')
      (w' : WriteHandler F' A' S') (theirs : Proto F' A' S') (m' : Memory)
      (client : Application F A S) (ours : Proto F A S) (cb : Callback F A) (m'' : Memory)
      → out.write ≡ some w
      → IsTable callback_key peer.outstanding_requests
      → IsText command
      → IsGood args
      → IsPlenty m
      → (peer.last_ask_key + 1) % 2 ^ 32 < 2 ^ 31
      → IsSteady app
      → app.output.write ≡ some w'
      → ((buf : Bytes) (size : ℕ) (p : Peer F' A' S') (n : Memory) → (w' buf size p n).0 ≡ pos 0)
      → Represents theirs.parser start
      → theirs.box ≡ some empty_box
      → get_responder theirs.peer.responders (text_chunk command).value ≡ none
      → length command + 21 ≤ 65535
      → IsPlenty m'
      → IsSteady client
      → Represents ours.parser start
      → ours.box ≡ some empty_box
      → IsTable callback_key ours.peer.outstanding_requests
      → outstanding ours.peer ((peer.last_ask_key + 1) % 2 ^ 32) ≡ some cb
      → IsPlenty m''
      → (let key = (peer.last_ask_key + 1) % 2 ^ 32 in
          let waiting : Callback F A = record { ask_key = garbage; func = func; arg = arg } in
          (packet : Box) × (bytes : Bytes) × (calling : Peer F A S) × (m1 : Memory)
          × (bytes' : Bytes) × (m2 m3 : Memory) × (served : Consumed F' A' S') × (e : Error)
          × (before : Peer F A S) × (m4 : Memory) × (r : Consumed F A S) × IsCalling peer key
              waiting calling
          × (amp_call out garbage peer command args func arg m
              ≡ called w bytes calling m1 key packet)
          × (amp_consume_bytes app theirs m' bytes ≡ some served)
          × IsReady served (w' bytes' (length bytes') (logged app command theirs.peer) m2).1 m3
          × (e.error_code ≡ some (text_chunk unhandled))
          × (e.error_descr ≡ some (text_chunk (refusal_text command)))
          × Without ours.peer key before
          × (amp_consume_bytes client ours m'' bytes' ≡ some r)
          × (let (peer', m5) = client.call_back cb.func cb.arg (failure e) before m4 in
              IsReady r peer' (free_callback cb m5)))
  refused_call_reaches_callback w out garbage peer command args func arg m app w' theirs m' client
        ours cb m'' set v text good plenty small steady set' answers rep held unknown short plenty'
        steady' rep' held' v' waits plenty'' =
      let key = (peer.last_ask_key + 1) % 2 ^ 32 in
      let (packet, bytes, calling, m0, m1, call, is_calling, plenty1, written, went) =
        call_written w out garbage peer command args func arg m set v text good plenty in
      let (copy, n1, c, handled) =
        packet_delivered app steady theirs packet m0 m' bytes rep held call.good.valid
          call.good.octets plenty' written in
      let (reply, bytes', m2, m3, request, refusal, written', done) =
        command_refused app w' theirs.peer args packet copy command key m' n1 set' text short
          (omega arith) call c plenty' unknown in
      let (ret, theirs', m4) = refused w' bytes' (logged app command theirs.peer) m3 reply in
      let fine : to_unsigned ret ≡ 0 =
        ap to_unsigned (answers bytes' (length bytes') (logged app command theirs.peer) m3) in
      let left = amp_free_request request m4 in
      let (served, consumed, ready) = handled ret none theirs' left done fine (
        handled-IsPlenty app steady theirs.peer copy m' n1 ret none theirs' left c.steady plenty'
          done) in
      let (copy', n2, c', handled') =
        packet_delivered client steady' ours reply m2 m'' bytes' rep' held' refusal.good.valid
          refusal.good.octets plenty'' written' in
      let (e, before, m5, code, descr, without, done') =
        failure_called client ours.peer reply copy' (refusal_text command) key m'' n2 cb refusal c'
          plenty'' small v' waits in
      let (ours', m6) = client.call_back cb.func cb.arg (failure e) before m5 in
      let freed = free_callback cb m6 in
      let (r, consumed', ready') = handled' (pos 0) none ours' freed done' refl (
        handled-IsPlenty client steady' ours.peer copy' m'' n2 (pos 0) none ours' freed c'.steady
          plenty'' done') in
      (
        packet, bytes, calling, m1, bytes', m3, left, served, e, before, m5, r, is_calling, went,
        consumed, ready, code, descr, without, consumed', ready',
      )
