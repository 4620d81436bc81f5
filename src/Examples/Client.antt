-- ===== src/Examples/Client.antt =====
-- The example client (examples/sumclient.c): do_sum_call, resp_cb and the write handler. fprintf,
-- printf and send are parameters; `I` is the type of the data that they reach.
pub mod Calls
pub mod Steady
use libamp.Common.{
  ℕ, ◌+◌, Bool, true, false, [], ◌∷◌, ◌++◌, Option, none, some, take, ltb, ◌==◌, if◌then◌else◌,
}
use libamp.Common.Int.{ℤ, pos, eqb_ℤ}
use libamp.CString.{Bytes, codes, c_str}
use libamp.Memory.{Memory}
use libamp.Errors.{ok, err}
use libamp.ErrorText.{amp_strerror}
use libamp.Box.{Box, amp_new_box}
use libamp.Types.{amp_get_long_long, amp_put_long_long}
use libamp.Types.Decimal.{show_ℤ}
use libamp.Messages.{Chunk, Error, CallResult, success, failure, cancelled, amp_free_result}
use libamp.Calls.{Peer, WriteHandler, Output, Called, amp_call}
use libamp.Examples.Server.{newline, sum_command}

abbrev pub max_operands : ℕ
max_operands = 50

-- *Sum_State_T, with what the standard streams and the socket hold.
pub record SumState (I : Type 0) : Type 0 where
  pub last_ask_key : ℕ
  pub idx : ℕ
  pub max_idx : ℕ
  pub operands : ℕ → ℤ
  pub io : I

-- `operands[i]`, or `none` behind the array.
unfoldable pub operand : {I : Type 0} → SumState I → ℕ → Option ℤ
operand state i = if ltb i max_operands then some (state.operands i) else none

-- `operands[i] = value`
unfoldable pub set_operand : {I : Type 0} → SumState I → ℕ → ℤ → Option (SumState I)
set_operand state i value =
    if ltb i max_operands
    then some (record state { operands = λ j. if j == i then value else state.operands j })
    else none

-- The system's functions: fprintf to the standard error stream, printf, and send on the socket.
pub record System (I : Type 0) : Type 0 where
  pub fprintf : Bytes → I → I
  pub printf : Bytes → I → I
  pub send : Bytes → I → I

-- A function of the program returns, or calls exit.
pub data Ran (F A I : Type 0) : Type 0 where
  returned : Peer F A (SumState I) → Memory → Ran F A I
  exited : ℕ → Peer F A (SumState I) → Ran F A I

module _ {F A I : Type 0} (sys : System I) where
  abbrev pub print_error : Bytes → Peer F A (SumState I) → Peer F A (SumState I)
  print_error text proto = record proto {
    app = record (proto.app) { io = sys.fprintf (text ++ newline) proto.app.io };
  }

  -- do_write. The buffer is not freed.
  unfoldable pub client_write : WriteHandler F A (SumState I)
  client_write buf buf_size proto m = (
    pos 0,
    record proto { app = record (proto.app) { io = sys.send (take buf_size buf) proto.app.io } },
    m,
  )

  -- The end of do_sum_call, behind amp_call. amp_call sets `last_ask_key` of the state through its
  -- pointer before it writes; here it is set behind the call, since the write handler of this
  -- program does not read it.
  unfoldable pub sum_called : Called F A (SumState I) → Ran F A I
  sum_called c =
      let proto : Peer F A (SumState I) = elim c.ask_key [
        | none ↦ c.proto
        | some key ↦ record (c.proto) { app = record (c.proto.app) { last_ask_key = key } }
      ] in
      if eqb_ℤ c.ret (pos 0)
      then returned proto c.memory
      else exited 1 (print_error (codes "amp_call() failed: " ++ amp_strerror c.ret) proto)

  -- `resp` is the pointer to resp_cb, `arg` the one to the state, and `garbage` what the fresh
  -- callback's block holds as its ask key. `none` is a null pointer that is written through, or a
  -- read behind the operands.
  unfoldable pub do_sum_call :
      Output F A (SumState I) → ℕ → F → A → Peer F A (SumState I) → Memory → Option (Ran F A I)
  do_sum_call out garbage resp arg proto m =
      let (new, m1) = amp_new_box m in
      elim new [
        | none ↦ none
        | some box ↦ elim (operand proto.app proto.app.idx) [
          | none ↦ none
          | some a ↦
              let (_, box1, m2) = amp_put_long_long box (codes "a") a m1 in
              elim (operand proto.app (proto.app.idx + 1)) [
                | none ↦ none
                | some b ↦
                    let (_, box2, m3) = amp_put_long_long box1 (codes "b") b m2 in
                    let proto1 : Peer F A (SumState I) = record proto {
                      app = record (proto.app) { idx = proto.app.idx + 1 };
                    } in
                    some (sum_called (amp_call out garbage proto1 sum_command box2 resp arg m3))
              ]
        ]
      ]

  -- The case AMP_ERROR of resp_cb. The description is read through its pointer.
  unfoldable pub sum_failed : Error → Peer F A (SumState I) → Option (Ran F A I)
  sum_failed e proto =
      let proto1 = print_error (codes "Got AMP error from remote peer.") proto in
      let proto2 : Peer F A (SumState I) = elim e.error_code [
        | none ↦ proto1
        | some code ↦ print_error (codes "Code: " ++ c_str code.value) proto1
      ] in
      elim e.error_descr [
        | none ↦ none
        | some descr ↦
            some (exited 1 (print_error (codes "Description: " ++ c_str descr.value) proto2))
      ]

  -- The case AMP_SUCCESS, behind amp_free_result: the last total is printed, another one is the next
  -- operand.
  unfoldable pub sum_total_got :
      Output F A (SumState I) → ℕ → F → A → ℤ → Peer F A (SumState I) → Memory → Option (Ran F A I)
  sum_total_got out garbage resp arg total proto m =
      if proto.app.idx == proto.app.max_idx
      then some (
          exited 0 (record proto {
            app = record (proto.app) {
              io =
                  sys.printf (codes "Finished sums. Total: " ++ (show_ℤ total ++ newline))
                    proto.app.io;
            };
          }))
      else elim (set_operand proto.app proto.app.idx total) [
        | none ↦ none
        | some state ↦ do_sum_call out garbage resp arg (record proto { app = state }) m
      ]

  -- There is no case for AMP_CANCEL.
  unfoldable pub resp_cb :
      Output F A (SumState I)
      → ℕ
      → F
      → A
      → CallResult
      → Peer F A (SumState I)
      → Memory
      → Option (Ran F A I)
  unfolding amp_free_result
  resp_cb out garbage resp arg (success r) proto m =
      elim (amp_get_long_long r.args (codes "total")) [
        | err ret ↦ some (
            exited 1
              (print_error (codes "Couldn't get total key: " ++ amp_strerror (pos ret)) proto))
        | ok total ↦ sum_total_got out garbage resp arg total proto (amp_free_result (success r) m)
      ]
  resp_cb out garbage resp arg (failure e) proto m = sum_failed e proto
  resp_cb out garbage resp arg cancelled proto m = some (returned proto m)
