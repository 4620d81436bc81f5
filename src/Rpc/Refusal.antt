-- ===== src/Rpc/Refusal.antt =====
-- A call of a command that has no responder comes back as an error (amp.c).
use libamp.Common.{
  ℕ, ◌+◌, ◌^◌, ◌<◌, ◌≤◌, ◌≡◌, refl, ap, ◌∙◌, arith, subst, true, false, [], ◌∷◌, ◌++◌, none, some,
  length, take, length-append, All, ◌==◌,
}
use libamp.CString.{Bytes, codes, c_str}
use libamp.Hashing.Buckets.{All-append}
use libamp.Memory.{Memory}
use libamp.Memory.Plenty.{IsPlenty, IsPlenty-after}
use libamp.Log.{amp_log}
use libamp.Errors.{ok, is_ok}
use libamp.Box.{Box, amp_num_keys, amp_has_key}
use libamp.Box.Valid.{has_key-get_buf}
use libamp.Box.Plenty.{found-length}
use libamp.Box.Serialize.{amp_serialize_box}
use libamp.Types.Decimal.{show_ℕ}
use libamp.Types.Texts.{uint-IsWhole}
use libamp.Types.Stored.{IsText}
use libamp.Dispatch.{get_responder}
use libamp.Messages.{Request, command_key, amp_free_request, new_request_from_box}
use libamp.Messages.Steady.{new_request_steady}
use libamp.Calls.{Peer, WriteHandler}
use libamp.Calls.Written.{IsCall}
use libamp.Handlers.{Application, prefix, suffix}
use libamp.Handlers.Refusal.{IsRefusal, refused, sent-IsRefusal}
use libamp.Packets.{process_full_packet, handle_command, refuse_command}
use libamp.Packets.Commands.{request_of, request_made}
use libamp.Rpc.Packet.{IsCopy}
use libamp.Rpc.Request.{text_chunk, request_of_call}
use libamp.Rpc.Answer.{take_text}

-- "Unhandled Command: '%s'"
abbrev pub refusal_text : Bytes → Bytes
refusal_text command = prefix ++ (command ++ suffix)

text_chunk-octets : (s : Bytes) → All (λ c. c < 256) s → All (λ c. c < 256) (text_chunk s).value
text_chunk-octets s h = All-append (λ c. c < 256) s (0 ∷ []) h (omega arith)

abbrev call_request : Bytes → ℕ → Box → Request
call_request command key copy = record {
  command = text_chunk command;
  ask_key = some (text_chunk (show_ℕ key));
  args = some copy;
}

call_request_made :
    (args packet copy : Box) (command : Bytes) (key : ℕ) (m m1 : Memory)
    → IsCall args command key packet
    → IsCopy packet m copy m1
    → IsPlenty m
    → (new_request_from_box copy m1).0 ≡ ok (call_request command key copy)
call_request_made args packet copy command key m m1 call c plenty =
    let found : Bytes × ℕ = (command, length command) in
    let request = request_of copy found in
    let is_request = request_of_call command key args packet copy m m1 call c in
    let same : request ≡ call_request command key copy =
      ap (λ t. record request { command = t }) is_request.named
      ∙ ap (λ k. record request { command = text_chunk command; ask_key = k }) is_request.asked in
    request_made copy found m1 c.valid (IsPlenty-after m m1 c.steady plenty)
      (c.same command_key ∙ call.named)
    ∙ ap (λ r. ok r) same

module _ {F A S : Type 0} where
  -- The message is logged.
  abbrev pub logged : Application F A S → Bytes → Peer F A S → Peer F A S
  logged app command peer = record peer {
    app =
        amp_log app.output.log
          (codes "No handler for command: " ++ c_str (text_chunk command).value) peer.app;
  }

  pub command_refused :
      (app : Application F A S) (w : WriteHandler F A S) (peer : Peer F A S)
      (args packet copy : Box) (command : Bytes) (key : ℕ) (m m1 : Memory)
      → app.output.write ≡ some w
      → IsText command
      → length command + 21 ≤ 65535
      → key < 2 ^ 32
      → IsCall args command key packet
      → IsCopy packet m copy m1
      → IsPlenty m
      → get_responder peer.responders (text_chunk command).value ≡ none
      → (reply : Box) × (bytes : Bytes) × (m2 m3 : Memory) × (request : Request) × IsRefusal
          (show_ℕ key)
          (refusal_text command)
          reply
        × ((amp_serialize_box reply m2).0 ≡ ok (bytes, length bytes))
        × (process_full_packet app peer copy m1 ≡ (
            let (ret, peer', m4) = refused w bytes (logged app command peer) m3 reply in
            some (ret, none, peer', amp_free_request request m4)))
  unfolding process_full_packet handle_command refuse_command amp_num_keys
  command_refused app w peer args packet copy command key m m1 set text short small call c plenty
        unknown =
      let there = c.same command_key ∙ call.named in
      let plenty1 = IsPlenty-after m m1 c.steady plenty in
      let request = call_request command key copy in
      let m2 = (new_request_from_box copy m1).1 in
      let plenty2 = IsPlenty-after m1 m2 (new_request_steady copy m1) plenty1 in
      let made = call_request_made args packet copy command key m m1 call c plenty in
      let whole = uint-IsWhole key small in
      let key_short = whole.short in
      let text_octets = text_chunk-octets (show_ℕ key) whole.octets in
      let log_peer = logged app command peer in
      let (reply, bytes, m3, m4, refusal, plenty4, written, sent) =
        sent-IsRefusal w request log_peer (text_chunk (show_ℕ key)).value (length (show_ℕ key)) m2
          text_octets (omega (arith, length-append (show_ℕ key) (0 ∷ [])))
          (omega (arith, key_short)) (text_chunk-octets command text.octets) short plenty2 in
      let full : (copy.length == 0) ≡ false =
        ground (arith, found-length copy command_key (command, length command) c.valid there) in
      let has : amp_has_key copy command_key ≡ true =
        has_key-get_buf copy command_key c.valid ∙ ap is_ok there in
      (
        reply,
        bytes,
        m3,
        m4,
        request,
        subst (λ k. IsRefusal k (refusal_text command) reply) (take_text (show_ℕ key))
            (subst
              (λ t.
                IsRefusal (take (length (show_ℕ key)) (text_chunk (show_ℕ key)).value)
                  (prefix ++ (t ++ suffix)) reply)
              (take_text command) refusal),
        written,
        rw
            (
              full, has, made, unknown, set, sent, process_full_packet, handle_command,
              refuse_command,
            )
            refl,
      )
