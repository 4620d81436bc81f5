-- ===== src/Calls.antt =====
-- Outgoing calls (amp.c): ask keys, the write handler, _amp_call, amp_call and amp_call_no_answer.
-- The write handler is the application's, and takes the buffer over.
pub mod Laws
pub mod Outcome
pub mod Written
pub mod Steady
use libamp.Common.{ℕ, ◌+◌, ◌%◌, ◌^◌, Bool, true, false, Option, none, some, ◌==◌, if◌then◌else◌}
use libamp.Common.Int.{ℤ, pos, negsuc}
use libamp.Memory.{Memory, malloc, release}
use libamp.CString.{Bytes, codes}
use libamp.Log.{amp_log}
use libamp.Errors.{Result, ok, err, enomem}
use libamp.Box.{Box, amp_del_key}
use libamp.Box.Serialize.{amp_serialize_box}
use libamp.Types.{amp_put_cstring, amp_put_uint}
use libamp.Table.{Table}
use libamp.Dispatch.{
  Callback, Responder, new_callback, put_callback, pop_callback, free_callback, new_responder,
  put_responder, remove_responder,
}
use libamp.Messages.{command_key, ask}

-- The fields of struct AMP_Proto that calls and answers use; `S` is the type of the data that the
-- handlers of the application reach through the arguments that it gave them.
pub record Peer (F A S : Type 0) : Type 0 where
  pub last_ask_key : ℕ
  pub outstanding_requests : Table ℕ (Callback F A)
  pub responders : Table Bytes (Responder F A)
  pub app : S

-- What a write handler is: the answer, and what it leaves of these fields and of the memory. The
-- parsing fields are not in its reach: a handler neither feeds nor resets the object that calls it.
abbrev pub WriteHandler : Type 0 → Type 0 → Type 0 → Type 0
WriteHandler F A S = Bytes → ℕ → Peer F A S → Memory → ℤ × Peer F A S × Memory

-- Where libamp sends its messages and its packets: the log handler, and `proto->write` with its
-- argument. NULL is `none`.
pub record Output (F A S : Type 0) : Type 0 where
  pub log : Option (Bytes → S → S)
  pub write : Option (WriteHandler F A S)

abbrev pub no_writer : Bytes
no_writer = codes "AMP_Proto.write == NULL, missing call to amp_set_write_handler()?"

-- What a call leaves: the answer, the ask key if `*ask_key_ret` was set, the protocol object, the
-- box of arguments, and the memory.
pub record Called (F A S : Type 0) : Type 0 where
  pub ret : ℤ
  pub ask_key : Option ℕ
  pub proto : Peer F A S
  pub args : Box
  pub memory : Memory

module _ {F A S : Type 0} where
  unfoldable pub amp_next_ask_key : Peer F A S → ℕ × Peer F A S
  amp_next_ask_key proto =
      let key = (proto.last_ask_key + 1) % 2 ^ 32 in (key, record proto { last_ask_key = key })

  unfoldable pub amp_set_log_handler : Output F A S → Option (Bytes → S → S) → Output F A S
  amp_set_log_handler out handler = record out { log = handler }

  -- The handler with the argument that it will be given.
  unfoldable pub amp_set_write_handler : Output F A S → (A → WriteHandler F A S) → A → Output F A S
  amp_set_write_handler out func write_arg = record out { write = some (func write_arg) }

  -- Without a write handler a message is logged, the buffer is freed, and the answer is 1.
  unfoldable pub do_write : Output F A S → Bytes → ℕ → Peer F A S → Memory → ℤ × Peer F A S × Memory
  unfolding release
  do_write out buf buf_size proto m = elim out.write [
    | none ↦ (pos 1, record proto { app = amp_log out.log no_writer proto.app }, release 1 m)
    | some write ↦ write buf buf_size proto m
  ]

  -- The end of _amp_call: the box is serialized and written.
  unfoldable pub send :
      Output F A S → Peer F A S → Box → Memory → Result (ℤ × Peer F A S × Memory) × Memory
  send out proto args m =
      let (packet, m') = amp_serialize_box args m in
      elim packet [
        | err ret ↦ (err ret, m')
        | ok (buf, buf_size) ↦ (ok (do_write out buf buf_size proto m'), m')
      ]

  -- The label `error` with a callback: it is taken off the map, if it is there, and freed.
  unfoldable pub drop_callback : ℕ → Peer F A S → ℕ → Callback F A → Box → Memory → Called F A S
  drop_callback ret proto ask_key cb args m =
      let (_, map, m') = pop_callback proto.outstanding_requests ask_key m in
      record {
        ret = pos ret;
        ask_key = some ask_key;
        proto = record proto { outstanding_requests = map };
        args = args;
        memory = free_callback cb m';
      }

  -- What _amp_call answers once the packet has been sent, or could not be made.
  unfoldable pub finish :
      Result (ℤ × Peer F A S × Memory) × Memory → Peer F A S → ℕ → Callback F A → Box → Called F A S
  finish (err ret, m) proto key cb args = drop_callback ret proto key cb args m
  finish (ok (ret, proto', m'), m) proto key cb args = record {
    ret = ret;
    ask_key = some key;
    proto = proto';
    args = args;
    memory = m';
  }

  -- _amp_call with requiresAnswer, behind the callback's allocation.
  unfoldable pub call_with : Output F A S → Peer F A S → Box → Callback F A → Memory → Called F A S
  call_with out proto args cb m =
      let (key, proto1) = amp_next_ask_key proto in
      let (e, map, m1) = put_callback proto1.outstanding_requests key cb m in
      let proto2 : Peer F A S = record proto1 { outstanding_requests = map } in
      if e == 0
      then (let (e2, args1, m2) = amp_put_uint args ask key m1 in
          if e2 == 0
          then finish (send out proto2 args1 m2) proto2 key cb args1
          else drop_callback e2 proto2 key cb args1 m2)
      else drop_callback e proto2 key cb args m1

  -- `garbage` is what the callback's fresh block holds as its ask key.
  unfoldable pub amp_call :
      Output F A S → ℕ → Peer F A S → Bytes → Box → F → A → Memory → Called F A S
  amp_call out garbage proto command args func arg m =
      let (e, args1, m1) = amp_put_cstring args command_key command m in
      if e == 0
      then (let (cb, m2) = new_callback garbage func arg m1 in
          elim cb [
            | none ↦ record {
              ret = pos enomem;
              ask_key = none;
              proto = proto;
              args = args1;
              memory = m2;
            }
            | some callback ↦ call_with out proto args1 callback m2
          ])
      else record { ret = pos e; ask_key = none; proto = proto; args = args1; memory = m1 }

  unfoldable pub amp_call_no_answer :
      Output F A S → Peer F A S → Bytes → Box → Memory → Called F A S
  amp_call_no_answer out proto command args m =
      let (e, args1, m1) = amp_put_cstring args command_key command m in
      if e == 0
      then (let (_, args2, m2) = amp_del_key args1 ask m1 in
          let (sent, m3) = send out proto args2 m2 in
          elim sent [
            | err ret ↦ record {
              ret = pos ret;
              ask_key = none;
              proto = proto;
              args = args2;
              memory = m3;
            }
            | ok (ret, proto', m4) ↦ record {
              ret = ret;
              ask_key = none;
              proto = proto';
              args = args2;
              memory = m4;
            }
          ])
      else record { ret = pos e; ask_key = none; proto = proto; args = args1; memory = m1 }
