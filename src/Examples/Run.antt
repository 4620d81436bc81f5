-- ===== src/Examples/Run.antt =====
-- The example programs (examples/asyncserver.c and examples/sumclient.c) from their start to the
-- printed total.
use libamp.Common.{ℕ, ◌+◌, ◌<◌, ◌≡◌, refl, List, ◌∷◌, Option, some, length}
use libamp.Common.Int.{ℤ}
use libamp.CString.{Bytes}
use libamp.Memory.{Memory}
use libamp.Memory.Plenty.{IsPlenty}
use libamp.Types.Texts.{IsLlong}
use libamp.Calls.{Peer}
use libamp.Connection.{Proto, amp_new_proto}
use libamp.Connection.Life.{fresh_proto, fresh_proto-IsNew}
use libamp.Connection.New.{new_proto_made}
use libamp.Examples.Server.{Libevent, accepted, listener_cb}
use libamp.Examples.Server.Listening.{listener_cb_serves}
use libamp.Examples.Client.{SumState, System, returned, do_sum_call}
use libamp.Examples.Session.{Remaining, Fits, sum_from, Finishes}
use libamp.Examples.Session.Finish.{sums_finish}
use libamp.Examples.Programs.{
  server_output, server_program, server_program-Serves, server_program-IsSteady, client_output,
  client_program, client_program-Runs, client_program-IsSteady,
}

-- The two programs add up the operands of the client. libevent makes a buffer for the connection, no
-- allocator fails, and the client has at most 50 operands from the current one, at least two, which
-- are `long long`s like their totals from the left. Then listener_cb accepts the connection,
-- amp_new_proto makes the client's object, and do_sum_call sends a packet. If each packet that one
-- side sends is given to the other, the client answers every answer with the next packet until its
-- callback prints the sum of the operands and exits with 0.
pub programs_finish :
    {F A S F' A' I : Type 0} (event : Libevent A S) (fprintf : Bytes → S → S)
    (log : Option (Bytes → S → S)) (sum : F) (junk : Bytes) (app : S) (bev : A) (m' : Memory)
    (sys : System I) (log' : Option (Bytes → SumState I → SumState I)) (garbage : Memory → ℕ)
    (resp : F') (arg : A') (state : SumState I) (m : Memory) (a b : ℤ) (rest : List ℤ)
    → (event.bufferevent_socket_new app).0 ≡ some bev
    → IsPlenty m'
    → IsPlenty m
    → state.max_idx ≡ state.idx + 1 + length rest
    → state.max_idx < 50
    → Remaining (a ∷ b ∷ rest) state.operands state.idx
    → IsLlong a
    → Fits a (b ∷ rest)
    → (theirs : Proto F A S) × (m1' : Memory) × (ours : Proto F' A' (SumState I)) × (m1 : Memory)
      × (peer : Peer F' A' (SumState I)) × (m2 : Memory) × (bytes : Bytes) × (listener_cb event
            fprintf log sum junk app m'
          ≡ some (accepted theirs (server_output event fprintf log bev), m1'))
      × (amp_new_proto state m ≡ some (some ours, m1))
      × (do_sum_call sys (client_output sys log' garbage) (garbage m1) resp arg ours.peer m1
          ≡ some (returned peer m2))
      × (peer.app.io ≡ sys.send bytes state.io)
      × Finishes event fprintf sys
          (server_program event fprintf log bev)
          sum
          bev
          (client_program sys log' garbage)
          garbage
          resp
          arg
          (sum_from a (b ∷ rest))
          (record ours { peer = peer })
          m2
          theirs
          m1'
          bytes
programs_finish {F} {A} {S} {F'} {A'} {I} event fprintf log sum junk app bev m' sys log' garbage
      resp arg state m a b rest new plenty' plenty count small left a_fits fits =
    let (theirs, m1', accepting, serving, table, none_waits, monitored) =
      listener_cb_serves event fprintf log sum junk app bev m' new plenty' in
    let (m1, plenty1, made) = new_proto_made F' A' state m plenty in
    let is_new = fresh_proto-IsNew {F = F'} {A = A'} state in
    let server = server_program event fprintf log bev in
    let (peer, m2, bytes, called, sent, ends) =
      sums_finish event fprintf sys server sum bev (client_program sys log' garbage) garbage resp
        arg (server_program-IsSteady event fprintf log bev)
        (server_program-Serves event fprintf log bev sum) refl
        (client_program-IsSteady sys log' garbage)
        (client_program-Runs sys log' garbage event fprintf server sum bev resp arg) refl a b rest
        (fresh_proto state) m1 theirs m1' is_new.begun refl is_new.calls plenty1 serving count small
        left a_fits fits in
    (theirs, m1', fresh_proto state, m1, peer, m2, bytes, accepting, made, called, sent, ends)
