-- ===== src/Examples/Session/Finish.antt =====
-- The run of the example programs (examples/sumclient.c and examples/asyncserver.c) ends with the sum
-- of the operands.
use libamp.Common.{ℕ, ◌+◌, ◌<◌, ◌≡◌, ◌≢◌, sym, ap, ◌∙◌, arith, subst, List, [], ◌∷◌, some, length}
use libamp.Common.Int.{ℤ, ◌+ℤ◌}
use libamp.CString.{Bytes}
use libamp.Memory.{Memory}
use libamp.Memory.Plenty.{IsPlenty, IsPlenty-after}
use libamp.Box.{empty_box}
use libamp.Types.Texts.{IsLlong}
use libamp.Table.Laws.{IsTable}
use libamp.Dispatch.{Callback, callback_key, free_callback}
use libamp.Messages.{success}
use libamp.Messages.Steady.{new_box_steady}
use libamp.Parser.Stage.{start}
use libamp.Parser.Represents.{Represents}
use libamp.Calls.{Peer}
use libamp.Handlers.{Application}
use libamp.Packets.Steady.{IsSteady}
use libamp.Connection.{Proto}
use libamp.Rpc.Packet.{IsReady}
use libamp.Rpc.Answer.{freed_steady}
use libamp.Examples.Server.{Libevent, server_write}
use libamp.Examples.Sum.{Serves}
use libamp.Examples.Client.{SumState, System, returned, do_sum_call, client_write}
use libamp.Examples.Client.Calls.{IsSent, do_sum_call-IsSent}
use libamp.Examples.Session.{
  Remaining, Fits, sum_from, total_text, IsServing, Finishes, last, next, Runs, round,
  set-Remaining,
}
use libamp.Examples.Session.Totals.{with_total, last_total, next-IsSent}

module _ {F A S F' A' I : Type 0} (event : Libevent A S) (fprintf : Bytes → S → S) (sys : System I)
    (server : Application F A S) (sum : F) (bev : A) (client : Application F' A' (SumState I))
    (garbage : Memory → ℕ) (resp : F') (arg : A') (steady : IsSteady server)
    (serves : Serves fprintf server sum) (set : server.output.write ≡ some (server_write event bev))
    (steady' : IsSteady client)
    (runs : Runs event fprintf sys server sum bev client garbage resp arg)
    (set' : client.output.write ≡ some (client_write sys)) where
  abbrev Ends : ℤ → Proto F' A' (SumState I) → Memory → Proto F A S → Memory → Bytes → Type 0
  Ends = Finishes event fprintf sys server sum bev client garbage resp arg

  -- The answer to a packet is awaited, and these operands are left.
  sent_finishes :
      (rest : List ℤ) (ours : Proto F' A' (SumState I)) (m : Memory) (theirs : Proto F A S)
      (m' : Memory) (peer : Peer F' A' (SumState I)) (bytes : Bytes) (a b : ℤ)
      → Represents ours.parser start
      → ours.box ≡ some empty_box
      → IsPlenty m
      → IsServing sum bev theirs m'
      → IsSent sys resp arg peer ours.peer bytes a b
      → ours.peer.app.max_idx ≡ ours.peer.app.idx + length rest
      → ours.peer.app.max_idx < 50
      → Remaining rest ours.peer.app.operands (ours.peer.app.idx + 1)
      → IsLlong (a +ℤ b)
      → Fits (a +ℤ b) rest
      → Ends (sum_from (a +ℤ b) rest) ours m theirs m' bytes
  sent_finishes [] ours m theirs m' peer bytes a b rep held plenty s sent count small left
        total_fits fits =
      let x =
        round event fprintf sys server sum bev client garbage resp arg steady serves set steady'
          runs set' ours m theirs m' peer bytes a b rep held plenty s sent in
      let (waits, table, responders, last_key, app) = x.without in
      last ours m theirs m' bytes x.bytes' x.served x.r (success x.response) x.before
        (record (x.before) {
          app = record (x.before.app) { io = sys.printf (total_text (a +ℤ b)) x.before.app.io };
        })
        x.m3 x.server_took x.wrote x.client_took x.ready.peer_left
        (last_total sys client.output (garbage x.m3) resp arg x.response x.before x.m3 (a +ℤ b)
          x.read (ap (λ s. s.idx) app ∙ omega (arith, count) ∙ sym (ap (λ s. s.max_idx) app)))
        (ap (λ s. sys.printf (total_text (a +ℤ b)) s.io) app)
  sent_finishes (c ∷ rest) ours m theirs m' peer bytes a b rep held plenty s sent count small left
        total_fits fits =
      let x =
        round event fprintf sys server sum bev client garbage resp arg steady serves set steady'
          runs set' ours m theirs m' peer bytes a b rep held plenty s sent in
      let (waits, table, responders, last_key, app) = x.without in
      let more : x.before.app.idx ≢ x.before.app.max_idx =
        subst (λ st. st.idx ≢ st.max_idx) (sym app) (omega (arith, count)) in
      let inside : x.before.app.idx + 1 < 50 =
        subst (λ st. st.idx + 1 < 50) (sym app) (omega (arith, count, small)) in
      let there : x.before.app.operands (x.before.app.idx + 1) ≡ c =
        ap (λ st. st.operands (st.idx + 1)) app ∙ left.0 in
      let (peer', m4, bytes', sent', plenty', called) =
        next-IsSent sys client.output (garbage x.m3) resp arg x.response x.before x.m3 (a +ℤ b)
          x.read c set' table more inside there total_fits fits.0 fits.1 x.plenty in
      let ran = runs (success x.response) x.before x.m3 peer' m4 called in
      let cb : Callback F' A' = record { ask_key = sent.key; func = resp; arg = arg } in
      let ready = subst (λ z. IsReady x.r z.0 (free_callback cb z.1)) ran x.ready in
      let old = ours.peer.app in
      let state : SumState I = record (with_total old (a +ℤ b)) {
        last_ask_key = sent'.key;
        idx = old.idx + 1;
        io = sys.send bytes' old.io;
      } in
      let now : x.r.proto.peer.app ≡ state =
        ap (λ p. p.app) ready.peer_left
        ∙ sent'.state
        ∙ ap
            (λ st. record (with_total st (a +ℤ b)) {
              last_ask_key = sent'.key;
              idx = st.idx + 1;
              io = sys.send bytes' st.io;
            })
            app in
      next ours m theirs m' bytes x.bytes' bytes' x.served x.r x.server_took x.wrote x.client_took
        (ap (λ st. st.io) now)
        (sent_finishes rest x.r.proto x.r.memory x.served.proto x.served.memory
          (record (x.before) { app = with_total x.before.app (a +ℤ b) }) bytes' (a +ℤ b) c
          ready.begun ready.empty
          (IsPlenty-after m4 x.r.memory
            (ap (λ m. m.succeeds) ready.memory_left
              ∙ new_box_steady (free_callback cb m4)
              ∙ freed_steady cb m4)
            plenty')
          x.serving
          (subst
            (λ p.
              IsSent sys resp arg (record (x.before) { app = with_total x.before.app (a +ℤ b) }) p
                bytes' (a +ℤ b) c)
            (sym ready.peer_left) sent')
          (subst (λ st. st.max_idx ≡ st.idx + length rest) (sym now) (omega (arith, count)))
          (subst (λ st. st.max_idx < 50) (sym now) small)
          (subst (λ st. Remaining rest st.operands (st.idx + 1)) (sym now)
            (set-Remaining rest old.operands (old.idx + 1 + 1) old.idx (a +ℤ b) (omega arith)
              left.1))
          fits.1 fits.2)

  -- The client adds up its operands. It has at most 50 `long long`s from the current one, at least
  -- two, whose totals from the left are `long long`s. Its protocol object is at the start of a box
  -- with a well-formed map of requests, and the server's waits for the command Sum with sum_responder.
  -- The handlers of both programs are those of the examples, and leave the allocator as it is; no
  -- allocator fails. Then do_sum_call sends a packet, and if each packet that one side sends is given
  -- to the other, the client answers every answer with the next packet until its callback prints the
  -- sum of the operands and exits with 0.
  pub sums_finish :
      (a b : ℤ) (rest : List ℤ) (ours : Proto F' A' (SumState I)) (m : Memory)
      (theirs : Proto F A S) (m' : Memory)
      → Represents ours.parser start
      → ours.box ≡ some empty_box
      → IsTable callback_key ours.peer.outstanding_requests
      → IsPlenty m
      → IsServing sum bev theirs m'
      → ours.peer.app.max_idx ≡ ours.peer.app.idx + 1 + length rest
      → ours.peer.app.max_idx < 50
      → Remaining (a ∷ b ∷ rest) ours.peer.app.operands ours.peer.app.idx
      → IsLlong a
      → Fits a (b ∷ rest)
      → (peer' : Peer F' A' (SumState I)) × (m1 : Memory) × (bytes : Bytes) × (do_sum_call sys
            client.output
            (garbage m)
            resp
            arg
            ours.peer
            m
          ≡ some (returned peer' m1))
        × (peer'.app.io ≡ sys.send bytes ours.peer.app.io)
        × Ends (sum_from a (b ∷ rest)) (record ours { peer = peer' }) m1 theirs m' bytes
  sums_finish a b rest ours m theirs m' rep held v plenty s count small left a_fits fits =
      let old = ours.peer.app in
      let (first, (second, others)) = left in
      let (peer', m1, bytes, sent, plenty', done) =
        do_sum_call-IsSent sys client.output (garbage m) resp arg ours.peer m set' v
          (omega (arith, count, small)) (subst IsLlong (sym first) a_fits)
          (subst IsLlong (sym second) fits.0)
          (subst IsLlong
            (sym (ap (λ x. x +ℤ old.operands (old.idx + 1)) first ∙ ap (λ x. a +ℤ x) second))
            fits.1)
          plenty in
      let sent' : IsSent sys resp arg ours.peer peer' bytes a b =
        subst (λ x. IsSent sys resp arg ours.peer peer' bytes x b) first
          (subst (λ x. IsSent sys resp arg ours.peer peer' bytes (old.operands old.idx) x) second
            sent) in
      (
        peer',
        m1,
        bytes,
        done,
        ap (λ st. st.io) sent'.state,
        sent_finishes rest (record ours { peer = peer' }) m1 theirs m' ours.peer bytes a b rep held
            plenty' s sent'
            (subst (λ st. st.max_idx ≡ st.idx + length rest) (sym sent'.state)
              (omega (arith, count)))
            (subst (λ st. st.max_idx < 50) (sym sent'.state) small)
            (subst (λ st. Remaining rest st.operands (st.idx + 1)) (sym sent'.state) others) fits.1
            fits.2,
      )
