-- ===== src/Packets/Maps.antt =====
-- The handling of a packet (amp.c) keeps the maps of the protocol object well formed, if the
-- application's handlers do.
use libamp.Common.{
  ℕ, ◌≡◌, sym, subst, arith, Option, none, some, ◌++◌, take, length, ◌==◌, Option-cases, Bool-cases,
  inl, inr,
}
use libamp.Common.Int.{ℤ, pos, to_unsigned}
use libamp.CString.{Bytes, codes, c_str}
use libamp.CString.Laws.{responder_key}
use libamp.Memory.{Memory, malloc}
use libamp.Errors.{Result-cases}
use libamp.Box.{Box, amp_new_box, amp_num_keys, amp_has_key}
use libamp.Box.Serialize.{amp_serialize_box}
use libamp.Types.{amp_put_bytes, amp_put_cstring}
use libamp.Log.{amp_log}
use libamp.Table.Laws.{IsTable, remove-IsTable}
use libamp.Dispatch.{Callback, callback_key, get_responder, pop_callback}
use libamp.Messages.{
  error, error_code_key, error_descr_key, command_key, answer, Request, CallResult, success,
  failure, new_request_from_box, new_response_from_box, new_error_from_box, new_result,
  amp_free_response, amp_free_error, amp_free_request,
}
use libamp.Calls.{Peer, WriteHandler}
use libamp.Handlers.{prefix, suffix, Application, send_description, send_unhandled_command_error}
use libamp.Packets.{
  Handled, refuse_command, handle_command, give_result, handle_answer, handle_error,
  process_full_packet,
}

-- Both maps are well formed.
pub record IsOrderly {F A S : Type 0} (peer : Peer F A S) : Type 0 where
  pub calls : IsTable callback_key peer.outstanding_requests
  pub commands : IsTable responder_key peer.responders

-- A write handler that keeps them so.
abbrev pub KeepsMaps : {F A S : Type 0} → WriteHandler F A S → Type 0
KeepsMaps {F} {A} {S} w =
    (buf : Bytes) (size : ℕ) (peer : Peer F A S) (m : Memory)
    → IsOrderly peer
    → IsOrderly (w buf size peer m).1

-- Handlers that keep them so.
pub record IsTidy {F A S : Type 0} (app : Application F A S) : Type 0 where
  pub write : (w : WriteHandler F A S) → app.output.write ≡ some w → KeepsMaps w
  pub respond :
      (f : F) (arg : A) (request : Request) (peer : Peer F A S) (m : Memory)
      → IsOrderly peer
      → IsOrderly (app.respond f arg request peer m).0
  pub call_back :
      (f : F) (arg : A) (result : CallResult) (peer : Peer F A S) (m : Memory)
      → IsOrderly peer
      → IsOrderly (app.call_back f arg result peer m).0

-- A packet was handled, or undefined behaviour was met, and the maps are well formed.
abbrev pub OrderlyHandled : {F A S : Type 0} → Handled F A S → Type 0
OrderlyHandled none = Unit {0}
OrderlyHandled (some (ret, kept, peer, m)) = IsOrderly peer

abbrev OrderlySent : {F A S : Type 0} → Option (ℤ × Peer F A S × Memory) → Type 0
OrderlySent none = Unit {0}
OrderlySent (some (ret, peer, m)) = IsOrderly peer

module _ {F A S : Type 0} where
  pub popped-IsOrderly :
      (peer : Peer F A S) (key : ℕ) (m : Memory)
      → IsOrderly peer
      → IsOrderly
          (record peer { outstanding_requests = (pop_callback peer.outstanding_requests key m).1 })
  unfolding pop_callback
  popped-IsOrderly peer key m v = record {
    calls = remove-IsTable callback_key peer.outstanding_requests key m v.calls;
    commands = v.commands;
  }

  pub app-IsOrderly :
      (peer : Peer F A S) (app : S) → IsOrderly peer → IsOrderly (record peer { app = app })
  app-IsOrderly peer app v = record { calls = v.calls; commands = v.commands }

  description-IsOrderly :
      (w : WriteHandler F A S)
      → KeepsMaps w
      → (r : Request) (box : Box) (peer : Peer F A S) (m : Memory) → IsOrderly peer
      → IsOrderly (send_description w r box peer m).1
  unfolding send_description
  description-IsOrderly w law r box peer m v =
      let buf : Bytes = prefix ++ (take r.command.size r.command.value ++ suffix) in
      let m1 = (malloc m).1 in
      let put = amp_put_bytes box error_descr_key buf (pos (length buf)) m1 in
      let packet = amp_serialize_box put.1 put.2 in
      elim (Bool-cases (malloc m).0) [
        | inr out ↦ rw (out, send_description) v
        | inl got ↦ elim (Bool-cases (put.0 == 0)) [
          | inr bad ↦ rw (got, bad, send_description) v
          | inl done ↦ elim (Result-cases packet.0) [
            | inr (e, failed) ↦ rw (got, done, failed, send_description) v
            | inl ((bytes, size), good) ↦
                rw (got, done, good, send_description) (law bytes size peer packet.1 v)
          ]
        ]
      ]

module _ {F A S : Type 0} (app : Application F A S) (tidy : IsTidy app) where
  unhandled-IsOrderly :
      (r : Request) (value : Bytes) (size : ℕ) (peer : Peer F A S) (m : Memory)
      → IsOrderly peer
      → OrderlySent (send_unhandled_command_error app.output.write r value size peer m)
  unfolding send_unhandled_command_error
  unhandled-IsOrderly r value size peer m v =
      let new = amp_new_box m in
      elim (Option-cases new.0) [
        | inl out ↦ rw (out, send_unhandled_command_error) v
        | inr (box, got) ↦
            let put = amp_put_bytes box error value (pos size) new.1 in
            let code = amp_put_cstring put.1 error_code_key (codes "UNHANDLED") put.2 in
            elim (Bool-cases (put.0 == 0)) [
              | inr bad ↦ rw (got, bad, send_unhandled_command_error) v
              | inl done ↦ elim (Bool-cases (code.0 == 0)) [
                | inr bad ↦ rw (got, done, bad, send_unhandled_command_error) v
                | inl coded ↦ elim (Option-cases app.output.write) [
                  | inl unset ↦ rw (got, done, coded, unset, send_unhandled_command_error) tt
                  | inr (w, set) ↦
                      rw (got, done, coded, set, send_unhandled_command_error)
                        (description-IsOrderly w (tidy.write w set) r code.1 peer code.2 v)
                ]
              ]
            ]
      ]

  refuse-IsOrderly :
      (r : Request) (peer : Peer F A S) (m : Memory)
      → IsOrderly peer
      → OrderlyHandled (refuse_command app r peer m)
  unfolding refuse_command
  refuse-IsOrderly r peer m v = elim (Option-cases r.ask_key) [
    | inl e ↦ ground (arith, e, v)
    | inr (key, e) ↦
        let f = unhandled-IsOrderly r key.value key.size peer m v in
        elim (Option-cases
          (send_unhandled_command_error app.output.write r key.value key.size peer m)) [
            | inl undefined ↦
                let same : refuse_command app r peer m ≡ none = ground (arith, e, undefined) in
                subst OrderlyHandled (sym same) tt
            | inr (x, sent) ↦
                let same : refuse_command app r peer m
                    ≡ some (x.0, none, x.1, amp_free_request r x.2) =
                  ground (arith, e, sent) in
                subst OrderlyHandled (sym same) (subst OrderlySent sent f)
          ]
  ]

  command-IsOrderly :
      (peer : Peer F A S) (box : Box) (m : Memory)
      → IsOrderly peer
      → OrderlyHandled (handle_command app peer box m)
  unfolding handle_command
  command-IsOrderly peer box m v =
      let made = new_request_from_box box m in
      elim (Result-cases made.0) [
        | inr (e, failed) ↦ rw (failed, handle_command) v
        | inl (r, good) ↦ elim (Option-cases (get_responder peer.responders r.command.value)) [
          | inr (h, there) ↦
              rw (good, there, handle_command) (tidy.respond h.func h.arg r peer made.1 v)
          | inl missing ↦
              let log =
                amp_log app.output.log (codes "No handler for command: " ++ c_str r.command.value)
                  peer.app in
              rw (good, missing, handle_command)
                (refuse-IsOrderly r (record peer { app = log }) made.1 (app-IsOrderly peer log v))
        ]
      ]

  result-IsOrderly :
      (peer : Peer F A S) (cb : Callback F A) (message : CallResult) (free : Memory → Memory)
      (m : Memory)
      → IsOrderly peer
      → OrderlyHandled (give_result app peer cb message free m)
  unfolding give_result
  result-IsOrderly peer cb message free m v =
      let made = new_result message m in
      elim (Result-cases made.0) [
        | inr (e, failed) ↦ rw (failed, give_result) v
        | inl (r, good) ↦ rw (good, give_result) (tidy.call_back cb.func cb.arg r peer made.1 v)
      ]

  answer-IsOrderly :
      (peer : Peer F A S) (box : Box) (m : Memory)
      → IsOrderly peer
      → OrderlyHandled (handle_answer app peer box m)
  unfolding handle_answer
  answer-IsOrderly peer box m v =
      let made = new_response_from_box box m in
      elim (Result-cases made.0) [
        | inr (e, failed) ↦ rw (failed, handle_answer) v
        | inl (r, good) ↦
            let popped = pop_callback peer.outstanding_requests r.answer_key made.1 in
            let v1 = popped-IsOrderly peer r.answer_key made.1 v in
            let peer1 : Peer F A S = record peer { outstanding_requests = popped.1 } in
            elim (Option-cases popped.0) [
              | inl missing ↦ rw (good, missing, handle_answer) (app-IsOrderly peer1 _ v1)
              | inr (cb, there) ↦
                  rw (good, there, handle_answer)
                    (result-IsOrderly peer1 cb (success r) (amp_free_response r) popped.2 v1)
            ]
      ]

  error-IsOrderly :
      (peer : Peer F A S) (box : Box) (m : Memory)
      → IsOrderly peer
      → OrderlyHandled (handle_error app peer box m)
  unfolding handle_error
  error-IsOrderly peer box m v =
      let made = new_error_from_box box m in
      elim (Result-cases made.0) [
        | inr (e, failed) ↦ rw (failed, handle_error) v
        | inl (r, good) ↦
            let key = to_unsigned r.answer_key in
            let popped = pop_callback peer.outstanding_requests key made.1 in
            let v1 = popped-IsOrderly peer key made.1 v in
            let peer1 : Peer F A S = record peer { outstanding_requests = popped.1 } in
            elim (Option-cases popped.0) [
              | inl missing ↦ rw (good, missing, handle_error) (app-IsOrderly peer1 _ v1)
              | inr (cb, there) ↦
                  rw (good, there, handle_error)
                    (result-IsOrderly peer1 cb (failure r) (amp_free_error r) popped.2 v1)
            ]
      ]

  pub process-IsOrderly :
      (peer : Peer F A S) (box : Box) (m : Memory)
      → IsOrderly peer
      → OrderlyHandled (process_full_packet app peer box m)
  unfolding process_full_packet
  process-IsOrderly peer box m v = elim (Bool-cases (amp_num_keys box == 0)) [
    | inl e ↦ rw (e, process_full_packet) v
    | inr full ↦ elim (Bool-cases (amp_has_key box command_key)) [
      | inl e ↦ rw (full, e, process_full_packet) (command-IsOrderly peer box m v)
      | inr no_command ↦ elim (Bool-cases (amp_has_key box answer)) [
        | inl e ↦ rw (full, no_command, e, process_full_packet) (answer-IsOrderly peer box m v)
        | inr no_answer ↦ elim (Bool-cases (amp_has_key box error)) [
          | inl e ↦
              rw (full, no_command, no_answer, e, process_full_packet)
                (error-IsOrderly peer box m v)
          | inr no_error ↦
              rw (full, no_command, no_answer, no_error, process_full_packet)
                (app-IsOrderly peer _ v)
        ]
      ]
    ]
  ]
