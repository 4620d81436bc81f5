-- ===== src/Packets/Answers.antt =====
-- Answers, errors and cancellations reach the callback of their request, once.
use libamp.Common.{
  ℕ, ◌≡◌, refl, ◌∙◌, arith, true, false, none, some, ◌==◌, if◌then◌else◌, Option-cases, inl, inr,
  ◌⊎◌, ◌≢◌,
}
use libamp.Common.Int.{ℤ, pos, to_unsigned}
use libamp.Memory.{Memory, malloc}
use libamp.Errors.{ok, no_such_ask_key}
use libamp.Box.{Box, amp_num_keys, amp_has_key}
use libamp.Types.{amp_get_uint}
use libamp.Table.{table_get, table_remove}
use libamp.Table.Laws.{IsTable, remove-lookup, remove-IsTable}
use libamp.Dispatch.{Callback, callback_key, same→eq, pop_callback, free_callback}
use libamp.Messages.{
  Response, CallResult, success, cancelled, command_key, answer, new_response_from_box, new_result,
}
use libamp.Calls.{Peer}
use libamp.Calls.Laws.{outstanding}
use libamp.Handlers.{Application, amp_cancel}
use libamp.Memory.Plenty.{IsPlenty, IsPlenty-after}
use libamp.Packets.Steady.{pop_steady}
use libamp.Messages.Steady.{new_response_steady}
use libamp.Packets.{process_full_packet, handle_answer, give_result}

new_response_made :
    (box : Box) (key : ℕ) (m : Memory)
    → m.succeeds m.calls ≡ true
    → amp_get_uint box answer ≡ ok key
    → (new_response_from_box box m).0 ≡ ok (record { args = box; answer_key = key })
unfolding new_response_from_box malloc
new_response_made box key m got found = ground (arith, got, found)

pub result_made :
    (r : CallResult) (m : Memory) → m.succeeds m.calls ≡ true → (new_result r m).0 ≡ ok r
unfolding new_result malloc
result_made r m got = ground (arith, got)

module _ {F A S : Type 0} where
  -- The requests of `peer'` are those of `peer` but for the one of `key`.
  abbrev pub Without : Peer F A S → ℕ → Peer F A S → Type 0
  Without peer key peer' =
      ((j : ℕ) → outstanding peer' j ≡ (if j == key then none else outstanding peer j))
      × IsTable callback_key peer'.outstanding_requests
      × (peer'.responders ≡ peer.responders)
      × (peer'.last_ask_key ≡ peer.last_ask_key)
      × (peer'.app ≡ peer.app)

  pub pop_known :
      (peer : Peer F A S) (key : ℕ) (cb : Callback F A) (m : Memory)
      → IsTable callback_key peer.outstanding_requests
      → outstanding peer key ≡ some cb
      → (let popped = pop_callback peer.outstanding_requests key m in
          (popped.0 ≡ some cb) × Without peer key (record peer { outstanding_requests = popped.1 }))
  unfolding pop_callback
  pop_known peer key cb m v known = (
    (remove-lookup callback_key peer.outstanding_requests key m v key).0 ∙ known,
    (
      λ j. (remove-lookup callback_key peer.outstanding_requests key m v j).1,
      remove-IsTable callback_key peer.outstanding_requests key m v,
      refl,
      refl,
      refl,
    ),
  )

  -- A packet with the _answer key of a waiting request, and no _command key, is dispatched on a
  -- well-formed map of requests, and the allocator never fails. Then the callback of the request is
  -- called once, with its argument and the packet as its response, and dispatching returns 0. When
  -- the callback is called its request waits no more; the other requests, the responders, the last
  -- ask key and the application's data are as before.
  pub answer_calls_back :
      (app : Application F A S) (peer : Peer F A S) (box : Box) (m : Memory) (key : ℕ)
      (cb : Callback F A)
      → IsTable callback_key peer.outstanding_requests
      → IsPlenty m
      → amp_num_keys box ≢ 0
      → amp_has_key box command_key ≡ false
      → amp_has_key box answer ≡ true
      → amp_get_uint box answer ≡ ok key
      → outstanding peer key ≡ some cb
      → (peer' : Peer F A S) × (m' : Memory) × Without peer key peer'
        × (process_full_packet app peer box m ≡ (
            let response = success (record { args = box; answer_key = key }) in
            let (peer'', m'') = app.call_back cb.func cb.arg response peer' m' in
            some (pos 0, none, peer'', free_callback cb m'')))
  unfolding process_full_packet handle_answer give_result
  answer_calls_back app peer box m key cb v plenty full no_command is_answer found known =
      let made = new_response_made box key m (plenty m.calls) found in
      let m1 = (new_response_from_box box m).1 in
      let (popped, without) = pop_known peer key cb m1 v known in
      let r : Response = record { args = box; answer_key = key } in
      let m2 = (pop_callback peer.outstanding_requests key m1).2 in
      let full_test : (amp_num_keys box == 0) ≡ false = ground (arith, full) in
      let given = result_made (success r) m2 (
        IsPlenty-after m m2 (pop_steady peer key m1 ∙ new_response_steady box m) plenty m2.calls) in
      (
        record peer { outstanding_requests = (pop_callback peer.outstanding_requests key m1).1 },
        (new_result (success r) m2).1,
        without,
        rw
            (
              full_test, no_command, is_answer, made, popped, given, process_full_packet,
              handle_answer, give_result,
            )
            refl,
      )

  pop_unknown :
      (peer : Peer F A S) (key : ℕ) (m : Memory)
      → IsTable callback_key peer.outstanding_requests
      → outstanding peer key ≡ none
      → (let popped = pop_callback peer.outstanding_requests key m in
          (popped.0 ≡ none)
          × ((j : ℕ)
              → outstanding (record peer { outstanding_requests = popped.1 }) j
                ≡ outstanding peer j)
          × (popped.2 ≡ m))
  unfolding pop_callback table_get table_remove
  pop_unknown peer key m v unknown = (
    (remove-lookup callback_key peer.outstanding_requests key m v key).0 ∙ unknown,
    λ j. ground (
      arith,
      (remove-lookup callback_key peer.outstanding_requests key m v j).1,
      same→eq j key,
      unknown,
    ),
    ground (arith, unknown),
  )

  -- amp_cancel on a well-formed map of requests, with an allocator that never fails. If a request
  -- waits under the key, its callback is called once with the reason that it was cancelled, when the
  -- request waits no more and all else is as before, and the answer is 0. If none waits, the answer is AMP_NO_SUCH_ASK_KEY, the
  -- same requests wait as before, no handler is called, and the memory is as it was.
  pub cancel_outcome :
      (app : Application F A S) (peer : Peer F A S) (ask_key : ℤ) (m : Memory)
      → IsTable callback_key peer.outstanding_requests
      → IsPlenty m
      → ((cb : Callback F A) × (peer' : Peer F A S) × (m' : Memory) × (outstanding peer
              (to_unsigned ask_key)
            ≡ some cb)
          × Without peer (to_unsigned ask_key) peer'
          × (amp_cancel app peer ask_key m ≡ (
              let (peer'', m'') = app.call_back cb.func cb.arg cancelled peer' m' in
              (0, peer'', free_callback cb m''))))
        ⊎ ((outstanding peer (to_unsigned ask_key) ≡ none)
            × ((amp_cancel app peer ask_key m).0 ≡ no_such_ask_key)
            × ((j : ℕ) → outstanding (amp_cancel app peer ask_key m).1 j ≡ outstanding peer j)
            × ((amp_cancel app peer ask_key m).1.app ≡ peer.app)
            × ((amp_cancel app peer ask_key m).2 ≡ m))
  unfolding amp_cancel
  cancel_outcome app peer ask_key m v plenty =
      let key = to_unsigned ask_key in
      let m1 = (pop_callback peer.outstanding_requests key m).2 in
      elim (Option-cases (outstanding peer key)) [
        | inr (cb, known) ↦
            let (popped, without) = pop_known peer key cb m v known in
            let given =
              result_made cancelled m1
                (IsPlenty-after m m1 (pop_steady peer key m) plenty m1.calls) in
            inl (
              cb,
              record peer {
                outstanding_requests = (pop_callback peer.outstanding_requests key m).1;
              },
              (new_result cancelled m1).1,
              known,
              without,
              rw (popped, given, amp_cancel) refl,
            )
        | inl unknown ↦
            let (popped, same, kept) = pop_unknown peer key m v unknown in
            inr (
              unknown,
              rw (popped, amp_cancel) refl,
              λ j. rw (popped, amp_cancel) (same j),
              rw (popped, amp_cancel) refl,
              rw (popped, amp_cancel) kept,
            )
      ]
