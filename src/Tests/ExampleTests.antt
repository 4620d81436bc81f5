-- ===== src/Tests/ExampleTests.antt =====
-- The theorems on the example programs, at the sum of 2, 3 and -4.
use libamp.Common.{ℕ, ◌≡◌, refl, some, none, [], ◌∷◌, ◌++◌, arith, take, drop, ◌==◌, if◌then◌else◌}
use libamp.Common.Int.{ℤ, pos, negsuc, ◌+ℤ◌}
use libamp.CString.{Bytes}
use libamp.Memory.{Memory}
use libamp.Table.Laws.{IsTable}
use libamp.Dispatch.{callback_key}
use libamp.Calls.{Peer}
use libamp.Calls.Laws.{outstanding}
use libamp.Connection.{Proto, amp_new_proto}
use libamp.Examples.Server.{Libevent, accepted, server_write, listener_cb}
use libamp.Examples.Server.Listening.{listener_cb_serves}
use libamp.Examples.Client.{SumState, System, returned, do_sum_call}
use libamp.Examples.Session.{IsServing, Fits, sum_from, Finishes}
use libamp.Examples.Programs.{server_output, server_program, client_output, client_program}
use libamp.Examples.Run.{programs_finish}
use libamp.Tests.ConnectionTests.{plenty-IsPlenty}
use libamp.Tests.Samples.{plenty}

-- One buffer with the number 5; what is written is kept.
abbrev event : Libevent ℕ Bytes
event = record {
  bufferevent_socket_new = λ s. (some 5, s);
  bufferevent_write = λ bev buf s. s ++ buf;
  bufferevent_read = λ bev n s. (take n s, drop n s);
  monitor = λ bev s. s;
  event_base_loopbreak = λ s. s;
}

abbrev keep : Bytes → Bytes → Bytes
keep text s = s ++ text

abbrev system : System Bytes
system = record { fprintf = keep; printf = keep; send = keep }

abbrev numbers : ℕ → ℤ
numbers n = if n == 0 then pos 2 else if n == 1 then pos 3 else negsuc 3

abbrev state : SumState Bytes
state = record { last_ask_key = 0; idx = 0; max_idx = 2; operands = numbers; io = [] }

listener_cb_serves_example :
    (proto : Proto ℕ ℕ Bytes) × (m' : Memory) × (listener_cb event keep none 7 [] [] plenty
      ≡ some (accepted proto (record { log = none; write = some (server_write event 5) }), m'))
    × IsServing 7 5 proto m'
    × IsTable callback_key proto.peer.outstanding_requests
    × ((key : ℕ) → outstanding proto.peer key ≡ none)
    × (proto.peer.app ≡ [])
listener_cb_serves_example =
    listener_cb_serves event keep none 7 [] [] 5 plenty refl plenty-IsPlenty

sums_program : Unit {0}
unfolding ◌+ℤ◌
sums_program = tt

numbers-Fits : Fits (pos 2) (pos 3 ∷ negsuc 3 ∷ [])
unfolding sums_program
numbers-Fits = (omega arith, omega arith, (omega arith, omega arith, tt))

programs_finish_example :
    (theirs : Proto ℕ ℕ Bytes) × (m1' : Memory) × (ours : Proto ℕ ℕ (SumState Bytes))
    × (m1 : Memory) × (peer : Peer ℕ ℕ (SumState Bytes)) × (m2 : Memory) × (bytes : Bytes)
    × (listener_cb event keep none 7 [] [] plenty
        ≡ some (accepted theirs (server_output event keep none 5), m1'))
    × (amp_new_proto state plenty ≡ some (some ours, m1))
    × (do_sum_call system (client_output system none (λ m. 0)) 0 8 9 ours.peer m1
        ≡ some (returned peer m2))
    × (peer.app.io ≡ system.send bytes [])
    × Finishes event keep system
        (server_program event keep none 5)
        7
        5
        (client_program system none (λ m. 0))
        (λ m. 0)
        8
        9
        (sum_from (pos 2) (pos 3 ∷ negsuc 3 ∷ []))
        (record ours { peer = peer })
        m2
        theirs
        m1'
        bytes
programs_finish_example =
    programs_finish {F = ℕ} {A = ℕ} {F' = ℕ} {A' = ℕ} event keep none 7 [] [] 5 plenty system none
      (λ m. 0) 8 9 state plenty (pos 2) (pos 3) (negsuc 3 ∷ []) refl plenty-IsPlenty plenty-IsPlenty
      (omega arith) (omega arith) (refl, (refl, (refl, tt))) (omega arith) numbers-Fits
