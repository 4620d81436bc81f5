-- ===== src/Examples/Server/Listening.antt =====
-- What the callback for a new connection (examples/asyncserver.c) leaves.
use libamp.Common.{ℕ, ◌≡◌, refl, ◌∙◌, arith, true, Option, none, some}
use libamp.CString.{Bytes, str_eq, c_str, bytes_eq}
use libamp.CString.Laws.{responder_key}
use libamp.Memory.{Memory, malloc}
use libamp.Memory.Plenty.{IsPlenty, IsPlenty-after}
use libamp.Table.{Table, table_put}
use libamp.Table.Laws.{IsTable}
use libamp.Dispatch.{Responder, callback_key, new_responder, put_responder, get_responder}
use libamp.Dispatch.Laws.{get_responder-put}
use libamp.Calls.{amp_set_write_handler}
use libamp.Calls.Laws.{outstanding}
use libamp.Handlers.{amp_add_responder}
use libamp.Connection.{Proto}
use libamp.Connection.Life.{fresh_proto, fresh_proto-IsNew}
use libamp.Connection.New.{new_proto_made}
use libamp.Rpc.Request.{text_chunk}
use libamp.Examples.Server.{Libevent, accepted, sum_command, server_write, listener_cb}
use libamp.Examples.Session.{IsServing}

names_program : Unit {0}
unfolding str_eq c_str bytes_eq
names_program = tt

module _ {F A : Type 0} where
  responder_made :
      (garbage : Bytes) (sum : F) (bev : A) (m : Memory)
      → IsPlenty m
      → (let new = new_responder garbage sum bev m in
          (new.0 ≡ some (record { command = garbage; func = sum; arg = bev })) × IsPlenty new.1)
  unfolding new_responder malloc
  responder_made garbage sum bev m plenty =
      let got = plenty m.calls in
      (
        ground (arith, got),
        IsPlenty-after m (new_responder garbage sum bev m).1 (ground (arith, got)) plenty,
      )

  put_responder_steady :
      (map : Table Bytes (Responder F A)) (command : Bytes) (r : Responder F A) (m : Memory)
      → (put_responder map command r m).1.succeeds ≡ m.succeeds
  unfolding put_responder table_put malloc
  put_responder_steady map command r m = ground arith

  -- The command is found with its terminator.
  responder_put :
      (map : Table Bytes (Responder F A)) (r : Responder F A) (m : Memory)
      → IsTable responder_key map
      → IsPlenty m
      → get_responder (put_responder map sum_command r m).0 (text_chunk sum_command).value
        ≡ some (record r { command = sum_command })
  responder_put map r m v plenty =
      let same : str_eq (text_chunk sum_command).value sum_command ≡ true =
        unfold names_program in refl in
      get_responder-put map sum_command r m v (text_chunk sum_command).value
      ∙ ground (arith, same, plenty m.calls)

module _ {F A S : Type 0} (event : Libevent A S) (fprintf : Bytes → S → S) where
  -- A connection for which libevent makes a buffer, with an allocator that never fails, gets a
  -- protocol object that waits for the command Sum with sum_responder. It is at the start of a box
  -- with no error, no request waits under any key, the write handler of the server is set with the buffer as its
  -- argument, and the buffer is monitored.
  pub listener_cb_serves :
      (log : Option (Bytes → S → S)) (sum : F) (garbage : Bytes) (app : S) (bev : A) (m : Memory)
      → (event.bufferevent_socket_new app).0 ≡ some bev
      → IsPlenty m
      → (proto : Proto F A S) × (m' : Memory) × (listener_cb event fprintf log sum garbage app m
          ≡ some (accepted proto (record { log = log; write = some (server_write event bev) }), m'))
        × IsServing sum bev proto m'
        × IsTable callback_key proto.peer.outstanding_requests
        × ((key : ℕ) → outstanding proto.peer key ≡ none)
        × (proto.peer.app ≡ event.monitor bev (event.bufferevent_socket_new app).1)
  unfolding listener_cb amp_add_responder amp_set_write_handler
  listener_cb_serves log sum garbage app bev m new plenty =
      let app1 = (event.bufferevent_socket_new app).1 in
      let (m1, plenty1, made) = new_proto_made F A app1 m plenty in
      let fresh = fresh_proto {F = F} {A = A} app1 in
      let is_new = fresh_proto-IsNew {F = F} {A = A} app1 in
      let m2 = (new_responder garbage sum bev m1).1 in
      let (r_made, plenty2) = responder_made garbage sum bev m1 plenty1 in
      let r : Responder F A = record { command = garbage; func = sum; arg = bev } in
      let put = put_responder fresh.peer.responders sum_command r m2 in
      (
        record fresh {
          peer = record (fresh.peer) { responders = put.0; app = event.monitor bev app1 };
        },
        put.1,
        rw (new, made, r_made, listener_cb, amp_add_responder, amp_set_write_handler) refl,
        record {
          begun = is_new.begun;
          empty = refl;
          registered = responder_put fresh.peer.responders r m2 is_new.commands plenty2;
          plenty =
              IsPlenty-after m2 put.1 (put_responder_steady fresh.peer.responders sum_command r m2)
                plenty2;
        },
        is_new.calls,
        is_new.none_waits,
        refl,
      )
