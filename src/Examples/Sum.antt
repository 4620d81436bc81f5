-- ===== src/Examples/Sum.antt =====
-- One sum from the caller over sum_responder (examples/asyncserver.c) to the callback.
use libamp.Common.{ℕ, ◌^◌, ◌<◌, ◌≡◌, refl, ap, ◌∙◌, arith, subst, true, false, some, length}
use libamp.Common.Int.{ℤ, ◌+ℤ◌}
use libamp.Hashing.Buckets.{view, home}
use libamp.Hashing.Chain.{find}
use libamp.CString.{Bytes, codes, hash_string, str_eq, c_str, bytes_eq}
use libamp.Memory.{Memory}
use libamp.Memory.Plenty.{IsPlenty}
use libamp.Errors.{ok, is_ok}
use libamp.Box.{Box, get_buf, empty_box, amp_has_key, amp_free_box}
use libamp.Box.Valid.{has_key-get_buf}
use libamp.Box.Stored.{IsStored}
use libamp.Box.Serialize.{amp_serialize_box}
use libamp.Types.{amp_get_long_long}
use libamp.Types.Decimal.{show_ℤ}
use libamp.Types.Texts.{IsLlong, read_long_long, buftoll-show_ℤ}
use libamp.Types.Stored.{IsText}
use libamp.Table.Laws.{IsTable}
use libamp.Dispatch.{Callback, Responder, callback_key, free_callback, get_responder}
use libamp.Messages.{Request, success, command_key, answer, ask, amp_free_request}
use libamp.Parser.Stage.{start}
use libamp.Parser.Represents.{Represents}
use libamp.Calls.{Peer, WriteHandler}
use libamp.Calls.Laws.{outstanding}
use libamp.Calls.Written.{IsCall}
use libamp.Handlers.{Application}
use libamp.Packets.Answers.{Without}
use libamp.Packets.Steady.{IsSteady}
use libamp.Connection.{Proto, Consumed, amp_consume_bytes}
use libamp.Rpc.Packet.{IsReady}
use libamp.Rpc.Request.{IsRequest, text_chunk, packet_reaches_responder}
use libamp.Rpc.Answer.{respond_reaches_callback}
use libamp.Examples.Server.{sum_command, answered, sum_responder}
use libamp.Examples.Server.Sums.{total_key, settled, sum_total}

pub sum_command-IsText : IsText sum_command
sum_command-IsText = record { clean = omega arith; octets = omega arith; short = omega arith }

-- The keys of the numbers are no keys of the protocol.
sum_keys_apart :
    (str_eq (codes "a") command_key ≡ false)
    × (str_eq (codes "a") ask ≡ false)
    × (str_eq (codes "b") command_key ≡ false)
    × (str_eq (codes "b") ask ≡ false)
    × (str_eq total_key answer ≡ false)
    × (str_eq total_key total_key ≡ true)
    × (str_eq command_key total_key ≡ false)
unfolding str_eq c_str bytes_eq
sum_keys_apart = (refl, refl, refl, refl, refl, refl, refl)

-- The box has the two numbers of a sum.
pub record IsSum (box : Box) (a b : ℤ) : Type 0 where
  pub first : get_buf box (codes "a") ≡ ok (show_ℤ a, length (show_ℤ a))
  pub second : get_buf box (codes "b") ≡ ok (show_ℤ b, length (show_ℤ b))
  pub a_fits : IsLlong a
  pub b_fits : IsLlong b
  pub total_fits : IsLlong (a +ℤ b)

total-no_command :
    (text : Bytes) (box : Box)
    → IsStored empty_box total_key text box
    → amp_has_key box command_key ≡ false
unfolding get_buf empty_box view find home hash_string
total-no_command text box s =
    let (k1, k2, k3, k4, k5, k6, apart) = sum_keys_apart in
    has_key-get_buf box command_key s.good.valid ∙ ap is_ok (s.others command_key apart)

read_llong :
    (box : Box) (key : Bytes) (v : ℤ)
    → IsLlong v
    → get_buf box key ≡ ok (show_ℤ v, length (show_ℤ v))
    → amp_get_long_long box key ≡ ok v
read_llong box key v h found = read_long_long box key (show_ℤ v) found v (buftoll-show_ℤ v h)

module _ {F A S : Type 0} (fprintf : Bytes → S → S) where
  -- The application calls sum_responder where it is called by the pointer `sum`.
  abbrev pub Serves : Application F A S → F → Type 0
  Serves app sum =
      (arg : A) (request : Request) (peer : Peer F A S) (m : Memory) (peer' : Peer F A S)
      (m' : Memory)
      → sum_responder fprintf app.output peer request m ≡ some (peer', m')
      → app.respond sum arg request peer m ≡ (peer', m')

module _ {F A S F' A' S' : Type 0} (fprintf : Bytes → S → S) where
  -- The responder's answer reaches the callback.
  sum_responded :
      (app : Application F A S) (sum : F)
      → Serves fprintf app sum
      → (w : WriteHandler F A S) (peer : Peer F A S) (arg : A) (request : Request) (args : Box)
        (a b : ℤ) (key : ℕ) (m : Memory)
      → app.output.write ≡ some w
      → IsSum args a b
      → IsRequest sum_command key args request
      → key < 2 ^ 32
      → IsPlenty m
      → (client : Application F' A' S') (proto : Proto F' A' S') (cb : Callback F' A') (m' : Memory)
      → IsSteady client
      → Represents proto.parser start
      → proto.box ≡ some empty_box
      → IsTable callback_key proto.peer.outstanding_requests
      → outstanding proto.peer key ≡ some cb
      → IsPlenty m'
      → (packet : Box) × (bytes : Bytes) × (m2 : Memory) × (copy : Box) × (before : Peer F' A' S')
        × (m3 : Memory) × (r : Consumed F' A' S') × (let (ret, peer', m4) =
              w bytes (length bytes) peer m2 in
            app.respond sum arg request peer m ≡ (
              answered fprintf ret peer',
              amp_free_box (some packet) (amp_free_request request m4),
            ))
        × (amp_get_long_long copy total_key ≡ ok (a +ℤ b))
        × Without proto.peer key before
        × IsPlenty m3
        × (amp_consume_bytes client proto m' bytes ≡ some r)
        × (let (peer', m4) =
              client.call_back cb.func cb.arg
                (success (record { args = copy; answer_key = key }))
                before
                m3 in
            IsReady r peer' (free_callback cb m4))
  sum_responded app sum serves w peer arg request args a b key m set s is_request small plenty
        client proto cb m' steady rep held v known plenty' =
      let (k1, k2, k3, k4, not_answer, k6, k7) = sum_keys_apart in
      let same = is_request.same in
      let first =
        read_llong is_request.copy (codes "a") a s.a_fits (same (codes "a") k1 k2 ∙ s.first) in
      let second =
        read_llong is_request.copy (codes "b") b s.b_fits (same (codes "b") k3 k4 ∙ s.second) in
      let (box, m1, stored, plenty1, ran) =
        sum_total fprintf app.output peer request is_request.copy a b m is_request.copied first
          second s.total_fits plenty in
      let (
        packet, bytes, m2, copy, before, m3, r, went, kept, without, found_memory, consumed, ready,
      ) =
        respond_reaches_callback w app.output peer request box m1 key client proto cb m' set
          is_request.asked small (total-no_command (show_ℤ (a +ℤ b)) box stored) stored.good plenty1
          steady rep held v known plenty' in
      let (ret, peer', m4) = w bytes (length bytes) peer m2 in
      (
        packet,
        bytes,
        m2,
        copy,
        before,
        m3,
        r,
        serves arg request peer m (answered fprintf ret peer')
            (amp_free_box (some packet) (amp_free_request request m4))
            (ran ∙ ap (λ x. settled fprintf request x) went),
        read_llong copy total_key (a +ℤ b) s.total_fits (kept total_key not_answer ∙ stored.found),
        without,
        found_memory,
        consumed,
        ready,
      )

  -- The packet of a sum, given to the server, and what the server writes, given to the client.
  pub packet_answered :
      (args packet : Box) (bytes : Bytes) (key : ℕ) (m0 : Memory) (a b : ℤ)
      (server : Application F A S) (w' : WriteHandler F A S) (sum : F) (bev : A)
      (theirs : Proto F A S) (m' : Memory)
      → IsSum args a b
      → IsCall args sum_command key packet
      → (amp_serialize_box packet m0).0 ≡ ok (bytes, length bytes)
      → key < 2 ^ 32
      → IsSteady server
      → Serves fprintf server sum
      → server.output.write ≡ some w'
      → Represents theirs.parser start
      → theirs.box ≡ some empty_box
      → get_responder theirs.peer.responders (text_chunk sum_command).value
        ≡ some (record { command = sum_command; func = sum; arg = bev })
      → IsPlenty m'
      → (client : Application F' A' S') (ours : Proto F' A' S') (cb : Callback F' A') (m'' : Memory)
      → IsSteady client
      → Represents ours.parser start
      → ours.box ≡ some empty_box
      → IsTable callback_key ours.peer.outstanding_requests
      → outstanding ours.peer key ≡ some cb
      → IsPlenty m''
      → (request : Request) × (packet' : Box) × (bytes' : Bytes) × (m2 : Memory)
        × (served : Consumed F A S) × (copy : Box) × (before : Peer F' A' S') × (m3 : Memory)
        × (r : Consumed F' A' S') × (amp_consume_bytes server theirs m' bytes ≡ some served)
        × (let (ret, peer', m4) = w' bytes' (length bytes') theirs.peer m2 in
            let left = amp_free_box (some packet') (amp_free_request request m4) in
            IsReady served (answered fprintf ret peer') left × IsPlenty left)
        × (amp_get_long_long copy total_key ≡ ok (a +ℤ b))
        × Without ours.peer key before
        × IsPlenty m3
        × (amp_consume_bytes client ours m'' bytes' ≡ some r)
        × (let (peer', m4) =
              client.call_back cb.func cb.arg
                (success (record { args = copy; answer_key = key }))
                before
                m3 in
            IsReady r peer' (free_callback cb m4))
  packet_answered args packet bytes key m0 a b server w' sum bev theirs m' s call written small
        steady serves set' rep held known plenty' client ours cb m'' steady' rep' held' v' waits
        plenty'' =
      let responder : Responder F A = record { command = sum_command; func = sum; arg = bev } in
      let (request, m3, served, is_request, before_plenty, consumed, ready) =
        packet_reaches_responder args packet sum_command bytes key m0 server theirs responder m'
          call written steady rep held known plenty' in
      let (
        packet', bytes', m2, copy, before, m5, r, ran, total, without, found_memory, consumed',
        ready',
      ) =
        sum_responded server sum serves w' theirs.peer bev request args a b key m3 set' s is_request
          small before_plenty client ours cb m'' steady' rep' held' v' waits plenty'' in
      (
        request,
        packet',
        bytes',
        m2,
        served,
        copy,
        before,
        m5,
        r,
        consumed,
        subst (λ x. IsReady served x.0 x.1 × IsPlenty x.1) ran ready,
        total,
        without,
        found_memory,
        consumed',
        ready',
      )
