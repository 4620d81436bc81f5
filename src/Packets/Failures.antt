-- ===== src/Packets/Failures.antt =====
-- An error packet reaches the callback of its request, once.
use libamp.Common.{◌≡◌, ◌≢◌, refl, ◌∙◌, arith, true, false, none, some, ◌==◌}
use libamp.Common.Int.{ℤ, pos, to_unsigned}
use libamp.Memory.{Memory, malloc}
use libamp.Memory.Plenty.{IsPlenty, IsPlenty-after}
use libamp.Errors.{ok}
use libamp.Box.{Box, amp_num_keys, amp_has_key, get_buf}
use libamp.Box.Valid.{IsValid}
use libamp.Box.Plenty.{malloc_got}
use libamp.Types.{amp_get_int}
use libamp.Table.Laws.{IsTable}
use libamp.Dispatch.{Callback, callback_key, pop_callback, free_callback}
use libamp.Messages.{
  Error, failure, command_key, answer, error, error_code_key, error_descr_key, optional_chunk,
  new_error_from_box, new_result,
}
use libamp.Messages.Steady.{malloc_steady, optional_steady, new_error_steady}
use libamp.Calls.{Peer}
use libamp.Calls.Laws.{outstanding}
use libamp.Handlers.{Application}
use libamp.Packets.{process_full_packet, handle_error, give_result}
use libamp.Packets.Steady.{pop_steady}
use libamp.Packets.Answers.{Without, pop_known, result_made}
use libamp.Packets.Commands.{optional_chunk_of, optional_found}

-- The error that a box stands for.
abbrev pub error_of : Box → ℤ → Error
error_of box key = record {
  answer_key = key;
  error_code = optional_chunk_of (get_buf box error_code_key);
  error_descr = optional_chunk_of (get_buf box error_descr_key);
}

error_made :
    (box : Box) (key : ℤ) (m : Memory)
    → IsValid box
    → IsPlenty m
    → amp_get_int box error ≡ ok key
    → (new_error_from_box box m).0 ≡ ok (error_of box key)
unfolding new_error_from_box
error_made box key m v plenty there =
    let m1 = (malloc m).1 in
    let got = malloc_got m plenty in
    let plenty1 = IsPlenty-after m m1 (malloc_steady m) plenty in
    let m2 = (optional_chunk box error_code_key m1).1 in
    let code = optional_found box error_code_key m1 plenty1 v in
    let descr =
      optional_found box error_descr_key m2
        (IsPlenty-after m1 m2 (optional_steady box error_code_key m1) plenty1) v in
    ground (arith, got, there, code, descr)

module _ {F A S : Type 0} where
  -- A well-formed packet with the _error key of a waiting request, and neither a _command nor an
  -- _answer key, is dispatched on a well-formed map of requests, and the allocator never fails. Then
  -- the callback of the request is called once, with its argument and the code and the description
  -- of the packet, each if it is there, and dispatching returns 0. When the callback is called its
  -- request waits no more; the other requests, the responders, the last ask key and the application's
  -- data are as before.
  pub error_calls_back :
      (app : Application F A S) (peer : Peer F A S) (box : Box) (m : Memory) (key : ℤ)
      (cb : Callback F A)
      → IsTable callback_key peer.outstanding_requests
      → IsValid box
      → IsPlenty m
      → amp_num_keys box ≢ 0
      → amp_has_key box command_key ≡ false
      → amp_has_key box answer ≡ false
      → amp_has_key box error ≡ true
      → amp_get_int box error ≡ ok key
      → outstanding peer (to_unsigned key) ≡ some cb
      → (peer' : Peer F A S) × (m' : Memory) × Without peer (to_unsigned key) peer'
        × (process_full_packet app peer box m ≡ (
            let (peer'', m'') =
              app.call_back cb.func cb.arg (failure (error_of box key)) peer' m' in
            some (pos 0, none, peer'', free_callback cb m'')))
  unfolding process_full_packet handle_error give_result
  error_calls_back app peer box m key cb v valid plenty full no_command no_answer is_error found
        known =
      let made = error_made box key m valid plenty found in
      let m1 = (new_error_from_box box m).1 in
      let ask = to_unsigned key in
      let (popped, without) = pop_known peer ask cb m1 v known in
      let e = error_of box key in
      let m2 = (pop_callback peer.outstanding_requests ask m1).2 in
      let full_test : (amp_num_keys box == 0) ≡ false = ground (arith, full) in
      let given =
        result_made (failure e) m2
          (IsPlenty-after m m2 (pop_steady peer ask m1 ∙ new_error_steady box m) plenty m2.calls) in
      (
        record peer { outstanding_requests = (pop_callback peer.outstanding_requests ask m1).1 },
        (new_result (failure e) m2).1,
        without,
        rw
            (
              full_test, no_command, no_answer, is_error, made, popped, given, process_full_packet,
              handle_error, give_result,
            )
            refl,
      )
