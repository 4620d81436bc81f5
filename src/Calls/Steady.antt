-- ===== src/Calls/Steady.antt =====
-- amp_call (amp.c) leaves the allocator as it is, if the write handler does.
use libamp.Common.{ℕ, ◌≡◌, arith, some, Option-cases, inl, inr}
use libamp.CString.{Bytes}
use libamp.Memory.{Memory, malloc, release}
use libamp.Errors.{Result-cases}
use libamp.Box.{Box}
use libamp.Box.Put.{put_buf_succeeds}
use libamp.Box.Serialize.{amp_serialize_box}
use libamp.Types.{amp_put_cstring, amp_put_uint}
use libamp.Messages.{command_key, ask}
use libamp.Messages.Steady.{put_cstring_steady, serialize_steady}
use libamp.Table.{Table, table_put, table_remove}
use libamp.Dispatch.{Callback, new_callback, put_callback, pop_callback, free_callback}
use libamp.Calls.{
  Peer, WriteHandler, Output, amp_call, call_with, send, do_write, finish, drop_callback,
  amp_next_ask_key,
}

put_uint_steady :
    (box : Box) (key : Bytes) (value : ℕ) (m : Memory)
    → (amp_put_uint box key value m).2.succeeds ≡ m.succeeds
unfolding amp_put_uint
put_uint_steady box key value m = put_buf_succeeds box key _ _ m

new_callback_steady :
    {F A : Type 0} (garbage : ℕ) (func : F) (arg : A) (m : Memory)
    → (new_callback garbage func arg m).1.succeeds ≡ m.succeeds
unfolding new_callback malloc
new_callback_steady garbage func arg m = ground arith

put_callback_steady :
    {F A : Type 0} (map : Table ℕ (Callback F A)) (key : ℕ) (cb : Callback F A) (m : Memory)
    → (put_callback map key cb m).2.succeeds ≡ m.succeeds
unfolding put_callback table_put malloc
put_callback_steady map key cb m = ground arith

drop_callback_steady :
    {F A S : Type 0} (ret : ℕ) (proto : Peer F A S) (key : ℕ) (cb : Callback F A) (args : Box)
    (m : Memory)
    → (drop_callback ret proto key cb args m).memory.succeeds ≡ m.succeeds
unfolding drop_callback pop_callback free_callback table_remove release
drop_callback_steady ret proto key cb args m = ground arith

module _ {F A S : Type 0} (w : WriteHandler F A S) (out : Output F A S) (set : out.write ≡ some w)
    (law : (buf : Bytes) (size : ℕ) (peer : Peer F A S) (m : Memory)
      → (w buf size peer m).2.succeeds ≡ m.succeeds) where
  finish_steady :
      (proto : Peer F A S) (key : ℕ) (cb : Callback F A) (args : Box) (m : Memory)
      → (finish (send out proto args m) proto key cb args).memory.succeeds ≡ m.succeeds
  unfolding finish send do_write
  finish_steady proto key cb args m =
      let packet = amp_serialize_box args m in
      let f = serialize_steady args m in
      elim (Result-cases packet.0) [
        | inl ((bytes, size), made) ↦ ground (arith, made, f, set, law bytes size proto packet.1)
        | inr (e, failed) ↦
            ground (arith, failed, f, drop_callback_steady e proto key cb args packet.1)
      ]

  call_with_steady :
      (proto : Peer F A S) (args : Box) (cb : Callback F A) (m : Memory)
      → (call_with out proto args cb m).memory.succeeds ≡ m.succeeds
  unfolding call_with
  call_with_steady proto args cb m =
      let next = amp_next_ask_key proto in
      let put = put_callback next.1.outstanding_requests next.0 cb m in
      let proto2 : Peer F A S = record (next.1) { outstanding_requests = put.1 } in
      let uint = amp_put_uint args ask next.0 put.2 in
      ground (
        arith,
        put_callback_steady next.1.outstanding_requests next.0 cb m,
        put_uint_steady args ask next.0 put.2,
        finish_steady proto2 next.0 cb uint.1 uint.2,
        drop_callback_steady uint.0 proto2 next.0 cb uint.1 uint.2,
        drop_callback_steady put.0 proto2 next.0 cb args put.2,
      )

  pub amp_call_steady :
      (garbage : ℕ) (proto : Peer F A S) (command : Bytes) (args : Box) (func : F) (arg : A)
      (m : Memory)
      → (amp_call out garbage proto command args func arg m).memory.succeeds ≡ m.succeeds
  unfolding amp_call
  amp_call_steady garbage proto command args func arg m =
      let named = amp_put_cstring args command_key command m in
      let f = put_cstring_steady args command_key command m in
      let new = new_callback garbage func arg named.2 in
      let g = new_callback_steady garbage func arg named.2 in
      elim (Option-cases new.0) [
        | inl failed ↦ ground (arith, f, g, failed)
        | inr (cb, made) ↦ ground (arith, f, g, made, call_with_steady proto named.1 cb new.1)
      ]
