-- ===== src/Packets.antt =====
-- The dispatch of a packet (amp.c): _amp_process_full_packet, one function for each kind of packet.
pub mod Steady
pub mod Answers
pub mod Commands
pub mod Failures
pub mod Maps
use libamp.Common.{
  ℕ, ◌+◌, ◌-◌, ◌*◌, ◌%◌, ◌^◌, Bool, true, false, List, [], ◌++◌, Option, none, some, length, ◌==◌,
  if◌then◌else◌, take,
}
use libamp.Common.Int.{ℤ, pos, negsuc, to_unsigned}
use libamp.Memory.{Memory, malloc, release}
use libamp.CString.{Bytes, codes, c_str}
use libamp.Errors.{Result, ok, err, enomem, box_empty, req_key_missing, no_such_ask_key}
use libamp.ErrorText.{amp_strerror}
use libamp.Log.{amp_log}
use libamp.Box.{Box, amp_new_box, amp_free_box, amp_num_keys, amp_has_key}
use libamp.Box.Serialize.{amp_serialize_box}
use libamp.Types.{amp_put_bytes, amp_put_cstring}
use libamp.Types.Decimal.{show_ℕ}
use libamp.Dispatch.{
  Callback, Responder, pop_callback, free_callback, new_responder, put_responder, get_responder,
  remove_responder,
}
use libamp.Messages.{
  Request, Response, Error, CallResult, success, failure, cancelled, command_key, answer, error,
  error_code_key, error_descr_key, new_request_from_box, new_response_from_box, new_error_from_box,
  new_result, amp_free_request, amp_free_response, amp_free_error,
}
use libamp.Calls.{Peer, WriteHandler, do_write}
use libamp.Handlers.{Application, send_unhandled_command_error}

-- "Invalid protocol data: %s" with the text of the code.
abbrev pub missing_message : Bytes
missing_message = codes "Invalid protocol data: " ++ amp_strerror (pos req_key_missing)

-- What handling a packet leaves: the code, `proto->box`, the other fields, and the memory. `none` is
-- undefined behaviour.
abbrev pub Handled : Type 0 → Type 0 → Type 0 → Type 0
Handled F A S = Option (ℤ × Option Box × Peer F A S × Memory)

module _ {F A S : Type 0} where
  -- `ret = _amp_send_unhandled_command_error(...)` if there is an ask key, and the request is freed.
  unfoldable pub refuse_command : Application F A S → Request → Peer F A S → Memory → Handled F A S
  unfolding amp_free_request
  refuse_command app request peer m = elim request.ask_key [
    | none ↦ some (pos 0, none, peer, amp_free_request request m)
    | some key ↦
        elim (send_unhandled_command_error app.output.write request key.value key.size peer m) [
          | none ↦ none
          | some (ret, peer1, m1) ↦ some (ret, none, peer1, amp_free_request request m1)
        ]
  ]

  unfoldable pub handle_command : Application F A S → Peer F A S → Box → Memory → Handled F A S
  handle_command app peer box m =
      let (made, m1) = new_request_from_box box m in
      elim made [
        | err ret ↦ some (pos ret, some box, peer, m1)
        | ok request ↦ elim (get_responder peer.responders request.command.value) [
          | some responder ↦
              let (peer1, m2) = app.respond responder.func responder.arg request peer m1 in
              some (pos 0, none, peer1, m2)
          | none ↦
              refuse_command app request
                (record peer {
                  app =
                      amp_log app.output.log
                        (codes "No handler for command: " ++ c_str request.command.value) peer.app;
                })
                m1
        ]
      ]

  -- The callback is off the map when it is called, and freed behind the call.
  unfoldable pub give_result :
      Application F A S
      → Peer F A S
      → Callback F A
      → CallResult
      → (Memory → Memory)
      → Memory
      → Handled F A S
  unfolding free_callback
  give_result app peer cb message free_message m =
      let (result, m1) = new_result message m in
      elim result [
        | err ret ↦ some (pos ret, none, peer, free_callback cb (free_message m1))
        | ok r ↦
            let (peer1, m2) = app.call_back cb.func cb.arg r peer m1 in
            some (pos 0, none, peer1, free_callback cb m2)
      ]

  unfoldable pub handle_answer : Application F A S → Peer F A S → Box → Memory → Handled F A S
  unfolding amp_free_response
  handle_answer app peer box m =
      let (made, m1) = new_response_from_box box m in
      elim made [
        | err ret ↦ some (pos ret, some box, peer, m1)
        | ok response ↦
            let (popped, map, m2) = pop_callback peer.outstanding_requests response.answer_key m1 in
            let peer1 : Peer F A S = record peer { outstanding_requests = map } in
            elim popped [
              | some cb ↦
                  give_result app peer1 cb (success response) (amp_free_response response) m2
              | none ↦ some (
                pos 0,
                none,
                record peer1 {
                  app =
                      amp_log app.output.log
                        (codes "Got unknown _answer key: " ++ show_ℕ response.answer_key) peer1.app;
                },
                amp_free_response response m2,
              )
            ]
      ]

  unfoldable pub handle_error : Application F A S → Peer F A S → Box → Memory → Handled F A S
  unfolding amp_free_error
  handle_error app peer box m =
      let (made, m1) = new_error_from_box box m in
      elim made [
        | err ret ↦ some (pos ret, some box, peer, m1)
        | ok e ↦
            let key = to_unsigned e.answer_key in
            let (popped, map, m2) = pop_callback peer.outstanding_requests key m1 in
            let peer1 : Peer F A S = record peer { outstanding_requests = map } in
            elim popped [
              | some cb ↦ give_result app peer1 cb (failure e) (amp_free_error e) m2
              | none ↦ some (
                pos 0,
                none,
                record peer1 {
                  app =
                      amp_log app.output.log (codes "Got unknown _error key: " ++ show_ℕ key)
                        peer1.app;
                },
                amp_free_error e m2,
              )
            ]
      ]

  unfoldable pub process_full_packet : Application F A S → Peer F A S → Box → Memory → Handled F A S
  process_full_packet app peer box m =
      if amp_num_keys box == 0
      then some (pos box_empty, some box, peer, m)
      else if amp_has_key box command_key
      then handle_command app peer box m
      else if amp_has_key box answer
      then handle_answer app peer box m
      else if amp_has_key box error
      then handle_error app peer box m
      else some (
        pos req_key_missing,
        some box,
        record peer { app = amp_log app.output.log missing_message peer.app },
        m,
      )
