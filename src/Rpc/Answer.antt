-- ===== src/Rpc/Answer.antt =====
-- amp_respond on one side calls the callback on the other side (amp.c).
use libamp.Common.{
  ℕ, ◌^◌, ◌<◌, ◌≤◌, ◌≡◌, refl, sym, ap, ◌∙◌, arith, false, true, [], ◌∷◌, ◌++◌, none, some, length,
  take, take_all, length-append, subst, take-append_short,
}
use libamp.Common.Int.{pos}
use libamp.CString.{Bytes, str_eq}
use libamp.Memory.{Memory, release}
use libamp.Memory.Plenty.{IsPlenty, IsPlenty-after}
use libamp.Errors.{ok, is_ok}
use libamp.Box.{Box, get_buf, empty_box, amp_num_keys, amp_has_key}
use libamp.Box.Valid.{has_key-get_buf}
use libamp.Box.Plenty.{found-length}
use libamp.Box.Stored.{IsGood, IsStored}
use libamp.Buftoll.Correct.{no_sign}
use libamp.Types.{amp_get_uint}
use libamp.Types.Decimal.{show_ℕ}
use libamp.Types.Texts.{uint-IsWhole, read_uint, buftoll-decimal}
use libamp.Table.Laws.{IsTable}
use libamp.Dispatch.{Callback, callback_key, free_callback}
use libamp.Hashing.Buckets.{All-append}
use libamp.Messages.{Request, success, command_key, answer}
use libamp.Parser.Stage.{start}
use libamp.Parser.Represents.{Represents}
use libamp.Calls.{Peer, WriteHandler, Output}
use libamp.Calls.Laws.{outstanding}
use libamp.Calls.Written.{keys_apart}
use libamp.Handlers.{Application, amp_respond}
use libamp.Handlers.Respond.{responded, respond_written}
use libamp.Packets.{process_full_packet}
use libamp.Packets.Answers.{Without, answer_calls_back}
use libamp.Packets.Steady.{IsSteady, process-Steady, memory_of}
use libamp.Connection.{Proto, Consumed, amp_consume_bytes}
use libamp.Rpc.Packet.{IsCopy, IsReady, packet_delivered}
use libamp.Rpc.Request.{text_chunk}

-- The text of a number is read as the number.
pub get_uint-show_ℕ :
    (box : Box) (key : Bytes) (v : ℕ)
    → v < 2 ^ 32
    → get_buf box key ≡ ok (show_ℕ v, length (show_ℕ v))
    → amp_get_uint box key ≡ ok v
unfolding show_ℕ
get_uint-show_ℕ box key v h found =
    read_uint box key (show_ℕ v) found v h (buftoll-decimal no_sign v (omega arith) (omega arith))

pub take_text : (s : Bytes) → take (length s) (s ++ 0 ∷ []) ≡ s
take_text s =
    take-append_short (length s) s (0 ∷ []) (omega arith) ∙ take_all (length s) s (omega arith)

pub freed_steady :
    {F A : Type 0} (cb : Callback F A) (m : Memory) → (free_callback cb m).succeeds ≡ m.succeeds
unfolding free_callback release
freed_steady cb m = refl

module _ {F A S : Type 0} where
  -- The call of a callback that an answer is.
  callback_called :
      (app : Application F A S)
      → IsSteady app
      → (peer : Peer F A S) (args packet copy : Box) (key : ℕ) (m m1 : Memory) (cb : Callback F A)
      → IsStored args answer (show_ℕ key) packet
      → amp_has_key args command_key ≡ false
      → IsGood args
      → IsCopy packet m copy m1
      → IsPlenty m
      → key < 2 ^ 32
      → IsTable callback_key peer.outstanding_requests
      → outstanding peer key ≡ some cb
      → (before : Peer F A S) × (m2 : Memory) × Without peer key before
        × (let (peer', m3) =
              app.call_back cb.func cb.arg
                (success (record { args = copy; answer_key = key }))
                before
                m2 in
            process_full_packet app peer copy m1 ≡ some (pos 0, none, peer', free_callback cb m3))
  unfolding amp_num_keys
  callback_called app steady peer args packet copy key m m1 cb s bare good c plenty small v known =
      let (apart, apart', apart'', apart''') = keys_apart in
      let found = c.same answer ∙ s.found in
      let kept = c.same command_key ∙ s.others command_key apart'' in
      let has : amp_has_key copy answer ≡ true =
        has_key-get_buf copy answer c.valid ∙ ap is_ok found in
      let no_command : amp_has_key copy command_key ≡ false =
        has_key-get_buf copy command_key c.valid
        ∙ ap is_ok kept
        ∙ sym (has_key-get_buf args command_key good.valid)
        ∙ bare in
      answer_calls_back app peer copy m1 key cb v (IsPlenty-after m m1 c.steady plenty)
        (found-length copy answer (show_ℕ key, length (show_ℕ key)) c.valid found) no_command has
        (get_uint-show_ℕ copy answer key small found) known

module _ {F A S F' A' S' : Type 0} where
  -- An answer from one side to the other. The answering side has a write handler, the request has
  -- the text of `key` as its ask key, and the answers have no _command key. The other side's protocol
  -- object is at the start of a box, a callback waits under `key` in its well-formed map of requests,
  -- and its handlers leave the allocator as it is. Neither side's allocator fails. Then amp_respond
  -- hands the write handler the bytes of one packet. These bytes, given to the other side, call the
  -- callback once, with its argument, `key`, and the answers under their keys, when the request waits
  -- no more, nothing else of the object was changed, and the allocator still never fails.
  -- amp_consume_bytes returns 0 with what the callback leaves, and that side is at the start of the
  -- next box.
  pub respond_reaches_callback :
      (w : WriteHandler F A S) (out : Output F A S) (peer : Peer F A S) (request : Request)
      (args : Box) (m : Memory) (key : ℕ) (app : Application F' A' S') (proto : Proto F' A' S')
      (cb : Callback F' A') (m' : Memory)
      → out.write ≡ some w
      → request.ask_key ≡ some (text_chunk (show_ℕ key))
      → key < 2 ^ 32
      → amp_has_key args command_key ≡ false
      → IsGood args
      → IsPlenty m
      → IsSteady app
      → Represents proto.parser start
      → proto.box ≡ some empty_box
      → IsTable callback_key proto.peer.outstanding_requests
      → outstanding proto.peer key ≡ some cb
      → IsPlenty m'
      → (packet : Box) × (bytes : Bytes) × (m2 : Memory) × (copy : Box) × (before : Peer F' A' S')
        × (m3 : Memory) × (r : Consumed F' A' S') × (amp_respond out peer request args m
            ≡ responded w bytes peer m2 packet)
        × ((j : Bytes) → str_eq j answer ≡ false → get_buf copy j ≡ get_buf args j)
        × Without proto.peer key before
        × IsPlenty m3
        × (amp_consume_bytes app proto m' bytes ≡ some r)
        × (let (peer', m4) =
              app.call_back cb.func cb.arg
                (success (record { args = copy; answer_key = key }))
                before
                m3 in
            IsReady r peer' (free_callback cb m4))
  respond_reaches_callback w out peer request args m key app proto cb m' set asked small bare good
        plenty steady rep held v known plenty' =
      let text = show_ℕ key in
      let whole = uint-IsWhole key small in
      let short = whole.short in
      let fits : length text ≤ length (text_chunk text).value =
        omega (arith, length-append text (0 ∷ [])) in
      let (packet, bytes, m1, m2, stored, plenty2, written, went) =
        respond_written w out peer request args m (text_chunk text) set asked
          (All-append (λ c. c < 256) text (0 ∷ []) whole.octets (omega arith)) fits
          (omega (arith, short)) good plenty in
      let (copy, m1', c, handled) =
        packet_delivered app steady proto packet m1 m' bytes rep held stored.good.valid
          stored.good.octets plenty' written in
      let s = subst (λ t. IsStored args answer t packet) (take_text text) stored in
      let (before, m3, without, done) =
        callback_called app steady proto.peer args packet copy key m' m1' cb s bare good c plenty'
          small v known in
      let (peer', m4) =
        app.call_back cb.func cb.arg (success (record { args = copy; answer_key = key })) before
          m3 in
      let left = (process-Steady app steady proto.peer copy m1').1 in
      let after : IsPlenty (free_callback cb m4) =
        IsPlenty-after m' (free_callback cb m4)
          (sym (ap (λ h. (memory_of m1' h).succeeds) done) ∙ left ∙ c.steady) plenty' in
      let (r, consumed, ready) = handled (pos 0) none peer' (free_callback cb m4) done refl after in
      (
        packet,
        bytes,
        m2,
        copy,
        before,
        m3,
        r,
        went,
        λ j q. c.same j ∙ stored.others j q,
        without,
        IsPlenty-after (free_callback cb m4) m3
            (sym (
                steady.call_back cb.func cb.arg (success (record { args = copy; answer_key = key }))
                  before m3)
              ∙ sym (freed_steady cb m4))
            after,
        consumed,
        ready,
      )
