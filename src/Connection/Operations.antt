-- ===== src/Connection/Operations.antt =====
-- The calls of an application (amp.c) keep the maps of the protocol object well formed.
use libamp.Common.{ℕ, ◌==◌, Option-cases, Bool-cases, inl, inr}
use libamp.Common.Int.{ℤ, to_unsigned}
use libamp.CString.{Bytes}
use libamp.Memory.{Memory}
use libamp.Errors.{Result-cases}
use libamp.Box.{Box, amp_del_key}
use libamp.Box.Serialize.{amp_serialize_box}
use libamp.Types.{amp_put_cstring, amp_put_uint}
use libamp.Table.Laws.{put-IsTable}
use libamp.Dispatch.{Callback, callback_key, new_callback, put_callback, pop_callback}
use libamp.Messages.{command_key, ask, new_result, cancelled}
use libamp.Calls.{
  Peer, amp_call, amp_call_no_answer, call_with, send, do_write, finish, drop_callback,
  amp_next_ask_key,
}
use libamp.Handlers.{Application, amp_cancel}
use libamp.Packets.Maps.{IsOrderly, IsTidy, popped-IsOrderly, app-IsOrderly}

module _ {F A S : Type 0} (app : Application F A S) (tidy : IsTidy app) where
  pub write-IsOrderly :
      (buf : Bytes) (size : ℕ) (peer : Peer F A S) (m : Memory)
      → IsOrderly peer
      → IsOrderly (do_write app.output buf size peer m).1
  unfolding do_write
  write-IsOrderly buf size peer m v = elim (Option-cases app.output.write) [
    | inl unset ↦ rw (unset, do_write) (app-IsOrderly peer _ v)
    | inr (w, set) ↦ rw (set, do_write) (tidy.write w set buf size peer m v)
  ]

  drop-IsOrderly :
      (ret : ℕ) (peer : Peer F A S) (key : ℕ) (cb : Callback F A) (args : Box) (m : Memory)
      → IsOrderly peer
      → IsOrderly (drop_callback ret peer key cb args m).proto
  unfolding drop_callback
  drop-IsOrderly ret peer key cb args m v = popped-IsOrderly peer key m v

  finish-IsOrderly :
      (peer : Peer F A S) (key : ℕ) (cb : Callback F A) (args : Box) (m : Memory)
      → IsOrderly peer
      → IsOrderly (finish (send app.output peer args m) peer key cb args).proto
  unfolding finish send
  finish-IsOrderly peer key cb args m v =
      let packet = amp_serialize_box args m in
      elim (Result-cases packet.0) [
        | inl ((bytes, size), made) ↦
            rw (made, finish, send) (write-IsOrderly bytes size peer packet.1 v)
        | inr (e, failed) ↦ rw (failed, finish, send) (drop-IsOrderly e peer key cb args packet.1 v)
      ]

  call_with-IsOrderly :
      (peer : Peer F A S) (args : Box) (cb : Callback F A) (m : Memory)
      → IsOrderly peer
      → IsOrderly (call_with app.output peer args cb m).proto
  unfolding call_with amp_next_ask_key put_callback
  call_with-IsOrderly peer args cb m v =
      let key = (amp_next_ask_key peer).0 in
      let peer1 = (amp_next_ask_key peer).1 in
      let put = put_callback peer1.outstanding_requests key cb m in
      let peer2 : Peer F A S = record peer1 { outstanding_requests = put.1 } in
      let v2 : IsOrderly peer2 = record {
        calls =
            put-IsTable callback_key peer1.outstanding_requests key (record cb { ask_key = key }) m
              v.calls;
        commands = v.commands;
      } in
      let uint = amp_put_uint args ask key put.2 in
      elim (Bool-cases (put.0 == 0)) [
        | inr bad ↦ rw (bad, call_with) (drop-IsOrderly put.0 peer2 key cb args put.2 v2)
        | inl done ↦ elim (Bool-cases (uint.0 == 0)) [
          | inr bad ↦
              rw (done, bad, call_with) (drop-IsOrderly uint.0 peer2 key cb uint.1 uint.2 v2)
          | inl fine ↦ rw (done, fine, call_with) (finish-IsOrderly peer2 key cb uint.1 uint.2 v2)
        ]
      ]

  pub call-IsOrderly :
      (garbage : ℕ) (peer : Peer F A S) (command : Bytes) (args : Box) (func : F) (arg : A)
      (m : Memory)
      → IsOrderly peer
      → IsOrderly (amp_call app.output garbage peer command args func arg m).proto
  unfolding amp_call
  call-IsOrderly garbage peer command args func arg m v =
      let named = amp_put_cstring args command_key command m in
      let new = new_callback garbage func arg named.2 in
      elim (Bool-cases (named.0 == 0)) [
        | inr bad ↦ rw (bad, amp_call) v
        | inl done ↦ elim (Option-cases new.0) [
          | inl out ↦ rw (done, out, amp_call) v
          | inr (cb, made) ↦ rw (done, made, amp_call) (call_with-IsOrderly peer named.1 cb new.1 v)
        ]
      ]

  pub call_no_answer-IsOrderly :
      (peer : Peer F A S) (command : Bytes) (args : Box) (m : Memory)
      → IsOrderly peer
      → IsOrderly (amp_call_no_answer app.output peer command args m).proto
  unfolding amp_call_no_answer send
  call_no_answer-IsOrderly peer command args m v =
      let named = amp_put_cstring args command_key command m in
      let asked = amp_del_key named.1 ask named.2 in
      let packet = amp_serialize_box asked.1 asked.2 in
      elim (Bool-cases (named.0 == 0)) [
        | inr bad ↦ rw (bad, amp_call_no_answer) v
        | inl done ↦ elim (Result-cases packet.0) [
          | inr (e, failed) ↦ rw (done, failed, amp_call_no_answer, send) v
          | inl ((bytes, size), made) ↦
              rw (done, made, amp_call_no_answer, send) (write-IsOrderly bytes size peer packet.1 v)
        ]
      ]

  pub cancel-IsOrderly :
      (peer : Peer F A S) (ask_key : ℤ) (m : Memory)
      → IsOrderly peer
      → IsOrderly (amp_cancel app peer ask_key m).1
  unfolding amp_cancel
  cancel-IsOrderly peer ask_key m v =
      let key = to_unsigned ask_key in
      let popped = pop_callback peer.outstanding_requests key m in
      let peer1 : Peer F A S = record peer { outstanding_requests = popped.1 } in
      let v1 = popped-IsOrderly peer key m v in
      let result = new_result cancelled popped.2 in
      elim (Option-cases popped.0) [
        | inl missing ↦ rw (missing, amp_cancel) v1
        | inr (cb, there) ↦ elim (Result-cases result.0) [
          | inr (e, failed) ↦ rw (there, failed, amp_cancel) v1
          | inl (r, made) ↦
              rw (there, made, amp_cancel) (tidy.call_back cb.func cb.arg r peer1 result.1 v1)
        ]
      ]
