-- ===== src/Packets/Steady.antt =====
-- Handling a packet leaves the allocator as it is, if the application's handlers do, and is defined
-- if a write handler is set.
use libamp.Common.{
  ℕ, ◌≡◌, refl, ◌∙◌, arith, true, ◌++◌, take, length, is_some, Option, none, some, inl, inr,
  Option-cases,
}
use libamp.Common.Int.{ℤ, pos, to_unsigned}
use libamp.CString.{Bytes, codes, c_str}
use libamp.Memory.{Memory, malloc, release}
use libamp.Box.{Box, amp_new_box}
use libamp.Box.Serialize.{amp_serialize_box}
use libamp.Types.{amp_put_bytes, amp_put_cstring}
use libamp.Log.{amp_log}
use libamp.Dispatch.{Callback, get_responder, pop_callback, free_callback}
use libamp.Table.{table_remove}
use libamp.Messages.{
  error, error_code_key, error_descr_key, Request, CallResult, success, failure,
  new_request_from_box, new_response_from_box, new_error_from_box, new_result, amp_free_response,
  amp_free_error,
}
use libamp.Calls.{Peer, WriteHandler}
use libamp.Errors.{Result-cases}
use libamp.Handlers.{prefix, suffix, Application, send_description, send_unhandled_command_error}
use libamp.Packets.{
  Handled, refuse_command, handle_command, give_result, handle_answer, handle_error,
  process_full_packet,
}
use libamp.Messages.Steady.{
  put_bytes_steady, put_cstring_steady, serialize_steady, new_box_steady, malloc_steady,
  new_request_steady, new_response_steady, new_error_steady, new_result_steady, free_request_steady,
  free_error_steady, free_response_steady, free_box_steady,
}

-- Handlers that leave the allocator as it is, with a write handler that is set.
pub record IsSteady {F A S : Type 0} (app : Application F A S) : Type 0 where
  pub write :
      (w : WriteHandler F A S) × (app.output.write ≡ some w)
      × ((buf : Bytes) (size : ℕ) (peer : Peer F A S) (m : Memory)
          → (w buf size peer m).2.succeeds ≡ m.succeeds)
  pub respond :
      (f : F) (arg : A) (request : Request) (peer : Peer F A S) (m : Memory)
      → (app.respond f arg request peer m).1.succeeds ≡ m.succeeds
  pub call_back :
      (f : F) (arg : A) (result : CallResult) (peer : Peer F A S) (m : Memory)
      → (app.call_back f arg result peer m).1.succeeds ≡ m.succeeds

-- The memory that a handled packet leaves, or an answer that was sent.
abbrev pub memory_of : {F A S : Type 0} → Memory → Handled F A S → Memory
memory_of m none = m
memory_of m (some (ret, kept, peer, m')) = m'

abbrev sent_memory : {F A S : Type 0} → Memory → Option (ℤ × Peer F A S × Memory) → Memory
sent_memory m none = m
sent_memory m (some (ret, peer, m')) = m'

pub pop_steady :
    {F A S : Type 0} (peer : Peer F A S) (key : ℕ) (m : Memory)
    → (pop_callback peer.outstanding_requests key m).2.succeeds ≡ m.succeeds
unfolding pop_callback table_remove release
pop_steady peer key m = ground arith

module _ {F A S : Type 0} (app : Application F A S) (steady : IsSteady app) where
  description_steady :
      (w : WriteHandler F A S)
      → ((buf : Bytes) (size : ℕ) (peer : Peer F A S) (m : Memory)
          → (w buf size peer m).2.succeeds ≡ m.succeeds)
      → (r : Request) (box : Box) (peer : Peer F A S) (m : Memory)
      → (send_description w r box peer m).2.succeeds ≡ m.succeeds
  unfolding send_description release
  description_steady w law r box peer m =
      let buf : Bytes = prefix ++ (take r.command.size r.command.value ++ suffix) in
      let m1 = (malloc m).1 in
      let put = amp_put_bytes box error_descr_key buf (pos (length buf)) m1 in
      let packet = amp_serialize_box put.1 put.2 in
      let f1 = malloc_steady m in
      let f2 = put_bytes_steady box error_descr_key buf (length buf) m1 in
      let f3 = serialize_steady put.1 put.2 in
      let g1 = free_box_steady (some box) m1 in
      let g2 = free_box_steady (some put.1) put.2 in
      elim (Result-cases packet.0) [
        | inl ((bytes, size), good) ↦
            let sent = (w bytes size peer packet.1).2 in
            let k = free_box_steady (some put.1) sent in
            ground (arith, f1, f2, f3, good, law bytes size peer packet.1, g1, g2, k)
        | inr (e, failed) ↦
            ground (arith, f1, f2, f3, failed, g1, g2, free_box_steady (some put.1) packet.1)
      ]

  unhandled_steady :
      (r : Request) (value : Bytes) (size : ℕ) (peer : Peer F A S) (m : Memory)
      → (let sent = send_unhandled_command_error app.output.write r value size peer m in
          (is_some sent ≡ true) × ((sent_memory m sent).succeeds ≡ m.succeeds))
  unfolding send_unhandled_command_error release
  unhandled_steady r value size peer m =
      let (w, set, law) = steady.write in
      let new = amp_new_box m in
      elim (Option-cases new.0) [
        | inl out ↦ (ground (arith, out, set), ground (arith, out, set, new_box_steady m))
        | inr (box, got) ↦
            let put = amp_put_bytes box error value (pos size) new.1 in
            let code = amp_put_cstring put.1 error_code_key (codes "UNHANDLED") put.2 in
            let f1 = new_box_steady m in
            let f2 = put_bytes_steady box error value size new.1 in
            let f3 = put_cstring_steady put.1 error_code_key (codes "UNHANDLED") put.2 in
            let f4 = description_steady w law r code.1 peer code.2 in
            let g1 = free_box_steady (some put.1) put.2 in
            let g2 = free_box_steady (some code.1) code.2 in
            (ground (arith, got, set), ground (arith, got, set, f1, f2, f3, f4, g1, g2))
      ]

  -- What is made of a handled packet.
  abbrev pub Steady : Memory → Handled F A S → Type 0
  Steady m h = (is_some h ≡ true) × ((memory_of m h).succeeds ≡ m.succeeds)

  Steady-trans :
      (m m1 : Memory) (h : Handled F A S) → m1.succeeds ≡ m.succeeds → Steady m1 h → Steady m h
  Steady-trans m m1 none e h = absurd (cc)
  Steady-trans m m1 (some x) e h = (refl, h.1 ∙ e)

  refuse-Steady :
      (r : Request) (peer : Peer F A S) (m : Memory) → Steady m (refuse_command app r peer m)
  unfolding refuse_command
  refuse-Steady r peer m = elim (Option-cases r.ask_key) [
    | inl e ↦ (ground (arith, e), ground (arith, e, free_request_steady r m))
    | inr (key, e) ↦
        let sent = send_unhandled_command_error app.output.write r key.value key.size peer m in
        let f = unhandled_steady r key.value key.size peer m in
        let g = free_request_steady r (sent_memory m sent) in
        (ground (arith, e, f), ground (arith, e, f, g))
  ]

  command-Steady :
      (peer : Peer F A S) (box : Box) (m : Memory) → Steady m (handle_command app peer box m)
  unfolding handle_command
  command-Steady peer box m =
      let made = new_request_from_box box m in
      let f = new_request_steady box m in
      elim (Result-cases made.0) [
        | inr (e, failed) ↦ (ground (arith, failed), ground (arith, failed, f))
        | inl (r, good) ↦ elim (Option-cases (get_responder peer.responders r.command.value)) [
          | inr (h, there) ↦ (
            ground (arith, good, there),
            ground (arith, good, there, f, steady.respond h.func h.arg r peer made.1),
          )
          | inl missing ↦
              let logged : Peer F A S = record peer {
                app =
                    amp_log app.output.log
                      (codes "No handler for command: " ++ c_str r.command.value) peer.app;
              } in
              let g = refuse-Steady r logged made.1 in
              rw (good, missing, handle_command) (Steady-trans m made.1 _ f g)
        ]
      ]

  result-Steady :
      (peer : Peer F A S) (cb : Callback F A) (message : CallResult) (free : Memory → Memory)
      (m : Memory)
      → ((m' : Memory) → (free m').succeeds ≡ m'.succeeds)
      → Steady m (give_result app peer cb message free m)
  unfolding give_result free_callback release
  result-Steady peer cb message free m law =
      let made = new_result message m in
      let f = new_result_steady message m in
      elim (Result-cases made.0) [
        | inr (e, failed) ↦ (ground (arith, failed), ground (arith, failed, f, law made.1))
        | inl (r, good) ↦ (
          ground (arith, good),
          ground (arith, good, f, steady.call_back cb.func cb.arg r peer made.1),
        )
      ]

  answer-Steady :
      (peer : Peer F A S) (box : Box) (m : Memory) → Steady m (handle_answer app peer box m)
  unfolding handle_answer
  answer-Steady peer box m =
      let made = new_response_from_box box m in
      let f = new_response_steady box m in
      elim (Result-cases made.0) [
        | inr (e, failed) ↦ (ground (arith, failed), ground (arith, failed, f))
        | inl (r, good) ↦
            let popped = pop_callback peer.outstanding_requests r.answer_key made.1 in
            let g = pop_steady peer r.answer_key made.1 in
            elim (Option-cases popped.0) [
              | inl missing ↦
                  let k = free_response_steady r popped.2 in
                  (ground (arith, good, missing), ground (arith, good, missing, f, g, k))
              | inr (cb, there) ↦
                  let peer1 : Peer F A S = record peer { outstanding_requests = popped.1 } in
                  let k =
                    result-Steady peer1 cb (success r) (amp_free_response r) popped.2
                      (free_response_steady r) in
                  rw (good, there, handle_answer) (Steady-trans m popped.2 _ (g ∙ f) k)
            ]
      ]

  error-Steady :
      (peer : Peer F A S) (box : Box) (m : Memory) → Steady m (handle_error app peer box m)
  unfolding handle_error
  error-Steady peer box m =
      let made = new_error_from_box box m in
      let f = new_error_steady box m in
      elim (Result-cases made.0) [
        | inr (e, failed) ↦ (ground (arith, failed), ground (arith, failed, f))
        | inl (r, good) ↦
            let key = to_unsigned r.answer_key in
            let popped = pop_callback peer.outstanding_requests key made.1 in
            let g = pop_steady peer key made.1 in
            elim (Option-cases popped.0) [
              | inl missing ↦
                  let k = free_error_steady r popped.2 in
                  (ground (arith, good, missing), ground (arith, good, missing, f, g, k))
              | inr (cb, there) ↦
                  let peer1 : Peer F A S = record peer { outstanding_requests = popped.1 } in
                  let k =
                    result-Steady peer1 cb (failure r) (amp_free_error r) popped.2
                      (free_error_steady r) in
                  rw (good, there, handle_error) (Steady-trans m popped.2 _ (g ∙ f) k)
            ]
      ]

  pub process-Steady :
      (peer : Peer F A S) (box : Box) (m : Memory) → Steady m (process_full_packet app peer box m)
  unfolding process_full_packet
  process-Steady peer box m =
      let f = command-Steady peer box m in
      let g = answer-Steady peer box m in
      let k = error-Steady peer box m in (ground (arith, f, g, k), ground (arith, f, g, k))
