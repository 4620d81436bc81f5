-- ===== src/Examples/Session.antt =====
-- A run of the example client (examples/sumclient.c) against the example server
-- (examples/asyncserver.c), from the first call to the printed total.
pub mod Totals
pub mod Finish
use libamp.Common.{
  ℕ, suc, ◌+◌, ◌<◌, ◌≡◌, ◌≢◌, refl, sym, ap, ◌∙◌, arith, subst, Bool, true, false, List, [], ◌∷◌,
  ◌++◌, Option, none, some, length, take, take_all, ltb, ◌==◌, if◌then◌else◌,
}
use libamp.Common.Int.{ℤ, pos, ◌+ℤ◌}
use libamp.CString.{Bytes, codes}
use libamp.Memory.{Memory, release}
use libamp.Memory.Plenty.{IsPlenty, IsPlenty-after}
use libamp.Errors.{ok}
use libamp.Box.{Box, empty_box, amp_new_box}
use libamp.Types.{amp_get_long_long}
use libamp.Types.Decimal.{show_ℤ}
use libamp.Types.Texts.{IsLlong}
use libamp.Dispatch.{Callback, Responder, get_responder, free_callback}
use libamp.Messages.{Response, CallResult, success, amp_free_result}
use libamp.Messages.Steady.{new_box_steady, free_response_steady}
use libamp.Parser.Stage.{start}
use libamp.Parser.Represents.{Represents}
use libamp.Calls.{Peer}
use libamp.Handlers.{Application}
use libamp.Packets.Answers.{Without}
use libamp.Packets.Steady.{IsSteady}
use libamp.Connection.{Proto, Consumed, amp_consume_bytes}
use libamp.Rpc.Packet.{IsReady}
use libamp.Rpc.Request.{text_chunk}
use libamp.Rpc.Answer.{freed_steady}
use libamp.Examples.Server.{Libevent, newline, sum_command, answered, server_write}
use libamp.Examples.Server.Sums.{total_key}
use libamp.Examples.Sum.{Serves, packet_answered}
use libamp.Examples.Client.{
  SumState, System, Ran, returned, exited, set_operand, do_sum_call, sum_total_got, resp_cb,
  client_write,
}
use libamp.Examples.Client.Calls.{IsSent, do_sum_call-IsSent}

pub free_result_steady :
    (r : Response) (m : Memory) → (amp_free_result (success r) m).succeeds ≡ m.succeeds
unfolding amp_free_result release
free_result_steady r m = free_response_steady r m

-- The operands from the `i`th.
abbrev pub Remaining : List ℤ → (ℕ → ℤ) → ℕ → Type 0
Remaining [] operands i = Unit {0}
Remaining (x ∷ rest) operands i = (operands i ≡ x) × Remaining rest operands (i + 1)

-- The numbers and the totals are `long long`s.
abbrev pub Fits : ℤ → List ℤ → Type 0
Fits total [] = Unit {0}
Fits total (x ∷ rest) = IsLlong x × IsLlong (total +ℤ x) × Fits (total +ℤ x) rest

abbrev pub sum_from : ℤ → List ℤ → ℤ
sum_from total [] = total
sum_from total (x ∷ rest) = sum_from (total +ℤ x) rest

-- An operand before them is set.
pub set-Remaining :
    (rest : List ℤ) (operands : ℕ → ℤ) (i j : ℕ) (v : ℤ)
    → j < i
    → Remaining rest operands i
    → Remaining rest (λ k. if k == j then v else operands k) i
set-Remaining [] operands i j v h r = tt
set-Remaining (x ∷ rest) operands i j v h r =
    (ground (arith, h, r.0), set-Remaining rest operands (i + 1) j v (omega arith) r.1)

abbrev pub total_text : ℤ → Bytes
total_text total = codes "Finished sums. Total: " ++ (show_ℤ total ++ newline)

-- The server's object waits for a command.
pub record IsServing {F A S : Type 0} (sum : F) (bev : A) (theirs : Proto F A S) (m : Memory)
    : Type 0 where
  pub begun : Represents theirs.parser start
  pub empty : theirs.box ≡ some empty_box
  pub registered :
      get_responder theirs.peer.responders (text_chunk sum_command).value
      ≡ some (record { command = sum_command; func = sum; arg = bev })
  pub plenty : IsPlenty m

module _ {F A S F' A' I : Type 0} (event : Libevent A S) (fprintf : Bytes → S → S) (sys : System I)
    (server : Application F A S) (sum : F) (bev : A) (client : Application F' A' (SumState I))
    (garbage : Memory → ℕ) (resp : F') (arg : A') where
  -- The packet `bytes` of the client `ours` goes to the server `theirs`, which writes one packet. It
  -- goes to the client, whose callback prints the total and exits with 0, or sends the next packet,
  -- and so on.
  pub data Finishes (total : ℤ)
      : Proto F' A' (SumState I) → Memory → Proto F A S → Memory → Bytes → Type 0 where
    last :
        (ours : Proto F' A' (SumState I)) (m : Memory) (theirs : Proto F A S) (m' : Memory)
        (bytes bytes' : Bytes) (served : Consumed F A S) (r : Consumed F' A' (SumState I))
        (result : CallResult) (before after : Peer F' A' (SumState I)) (m3 : Memory)
        → amp_consume_bytes server theirs m' bytes ≡ some served
        → served.proto.peer.app ≡ event.bufferevent_write bev bytes' theirs.peer.app
        → amp_consume_bytes client ours m bytes' ≡ some r
        → r.proto.peer ≡ (client.call_back resp arg result before m3).0
        → resp_cb sys client.output (garbage m3) resp arg result before m3 ≡ some (exited 0 after)
        → after.app.io ≡ sys.printf (total_text total) ours.peer.app.io
        → Finishes total ours m theirs m' bytes
    next :
        (ours : Proto F' A' (SumState I)) (m : Memory) (theirs : Proto F A S) (m' : Memory)
        (bytes bytes' bytes'' : Bytes) (served : Consumed F A S) (r : Consumed F' A' (SumState I))
        → amp_consume_bytes server theirs m' bytes ≡ some served
        → served.proto.peer.app ≡ event.bufferevent_write bev bytes' theirs.peer.app
        → amp_consume_bytes client ours m bytes' ≡ some r
        → r.proto.peer.app.io ≡ sys.send bytes'' ours.peer.app.io
        → Finishes total r.proto r.memory served.proto served.memory bytes''
        → Finishes total ours m theirs m' bytes

  -- The client calls resp_cb, where it returns, by the pointer `resp`.
  abbrev pub Runs : Type 0
  Runs =
      (result : CallResult) (peer : Peer F' A' (SumState I)) (m : Memory)
      (peer' : Peer F' A' (SumState I)) (m' : Memory)
      → resp_cb sys client.output (garbage m) resp arg result peer m ≡ some (returned peer' m')
      → client.call_back resp arg result peer m ≡ (peer', m')

  module _ (steady : IsSteady server) (serves : Serves fprintf server sum)
      (set : server.output.write ≡ some (server_write event bev)) (steady' : IsSteady client)
      (runs : Runs) (set' : client.output.write ≡ some (client_write sys)) where
    -- One exchange, up to the callback.
    pub record IsRound (ours : Proto F' A' (SumState I)) (m : Memory) (theirs : Proto F A S)
        (m' : Memory) (bytes : Bytes) (total : ℤ) (key : ℕ) : Type 0 where
      pub bytes' : Bytes
      pub served : Consumed F A S
      pub r : Consumed F' A' (SumState I)
      pub response : Response
      pub before : Peer F' A' (SumState I)
      pub m3 : Memory
      pub server_took : amp_consume_bytes server theirs m' bytes ≡ some served
      pub wrote : served.proto.peer.app ≡ event.bufferevent_write bev bytes' theirs.peer.app
      pub serving : IsServing sum bev served.proto served.memory
      pub client_took : amp_consume_bytes client ours m bytes' ≡ some r
      pub read : amp_get_long_long response.args total_key ≡ ok total
      pub without : Without ours.peer key before
      pub plenty : IsPlenty m3
      pub ready :
          (let (peer', m4) = client.call_back resp arg (success response) before m3 in
            IsReady r peer' (free_callback (record { ask_key = key; func = resp; arg = arg }) m4))

    -- The server's object after it.
    round-IsServing :
        (theirs : Proto F A S) (m' : Memory) (served : Consumed F A S) (bytes' : Bytes)
        (left : Memory)
        → IsServing sum bev theirs m'
        → IsReady served
            (record (theirs.peer) {
              app = event.bufferevent_write bev (take (length bytes') bytes') theirs.peer.app;
            })
            left
        → IsPlenty left
        → IsServing sum bev served.proto served.memory
          × (served.proto.peer.app ≡ event.bufferevent_write bev bytes' theirs.peer.app)
    round-IsServing theirs m' served bytes' left s ready plenty =
        let same : take (length bytes') bytes' ≡ bytes' =
          take_all (length bytes') bytes' (omega arith) in
        (
          record {
            begun = ready.begun;
            empty = ready.empty;
            registered =
                ap (λ p. get_responder p.responders (text_chunk sum_command).value) ready.peer_left
                ∙ s.registered;
            plenty =
                IsPlenty-after left served.memory
                  (ap (λ m. m.succeeds) ready.memory_left ∙ new_box_steady left) plenty;
          },
          ap (λ p. p.app) ready.peer_left
              ∙ ap (λ b. event.bufferevent_write bev b theirs.peer.app) same,
        )

    pub round :
        (ours : Proto F' A' (SumState I)) (m : Memory) (theirs : Proto F A S) (m' : Memory)
        (peer : Peer F' A' (SumState I)) (bytes : Bytes) (a b : ℤ)
        → Represents ours.parser start
        → ours.box ≡ some empty_box
        → IsPlenty m
        → IsServing sum bev theirs m'
        → (sent : IsSent sys resp arg peer ours.peer bytes a b)
        → IsRound ours m theirs m' bytes (a +ℤ b) sent.key
    unfolding server_write answered
    round ours m theirs m' peer bytes a b rep held plenty s sent =
        let cb : Callback F' A' = record { ask_key = sent.key; func = resp; arg = arg } in
        let (
          request,
          packet',
          bytes',
          m2,
          served,
          copy,
          before,
          m3,
          r,
          took,
          (ready, left),
          total,
          without,
          found_memory,
          took',
          ready',
        ) =
          packet_answered fprintf sent.args sent.packet bytes sent.key sent.m0 a b server
            (server_write event bev) sum bev theirs m' sent.sum sent.call sent.written sent.small
            steady serves set s.begun s.empty s.registered s.plenty client ours cb m steady' rep
            held sent.table sent.waits plenty in
        let (serving, wrote) = round-IsServing theirs m' served bytes' _ s ready left in
        record {
          bytes' = bytes';
          served = served;
          r = r;
          response = record { args = copy; answer_key = sent.key };
          before = before;
          m3 = m3;
          server_took = took;
          wrote = wrote;
          serving = serving;
          client_took = took';
          read = total;
          without = without;
          plenty = found_memory;
          ready = ready';
        }
