-- ===== src/Examples/Session/Totals.antt =====
-- What resp_cb (examples/sumclient.c) does with a total.
use libamp.Common.{
  ℕ, ◌+◌, ◌<◌, ◌≡◌, ◌≢◌, refl, sym, ap, ◌∙◌, arith, subst, true, false, some, ltb, ◌==◌,
  if◌then◌else◌,
}
use libamp.Common.Int.{ℤ, ◌+ℤ◌}
use libamp.CString.{Bytes}
use libamp.Memory.{Memory}
use libamp.Memory.Plenty.{IsPlenty, IsPlenty-after}
use libamp.Errors.{ok}
use libamp.Types.{amp_get_long_long}
use libamp.Types.Texts.{IsLlong}
use libamp.Table.Laws.{IsTable}
use libamp.Dispatch.{callback_key}
use libamp.Messages.{Response, success, amp_free_result}
use libamp.Calls.{Peer, Output}
use libamp.Examples.Server.Sums.{total_key}
use libamp.Examples.Client.{
  SumState, System, returned, exited, set_operand, do_sum_call, sum_total_got, resp_cb,
  client_write,
}
use libamp.Examples.Client.Calls.{IsSent, do_sum_call-IsSent}
use libamp.Examples.Session.{total_text, free_result_steady}

-- The state with the total as the current operand.
abbrev pub with_total : {I : Type 0} → SumState I → ℤ → SumState I
with_total state total = record state {
  operands = λ j. if j == state.idx then total else state.operands j;
}

module _ {F A I : Type 0} (sys : System I) (out : Output F A (SumState I)) (garbage : ℕ) (resp : F)
    (arg : A) (response : Response) (peer : Peer F A (SumState I)) (m : Memory) (total : ℤ)
    (read : amp_get_long_long response.args total_key ≡ ok total) where
  pub last_total :
      peer.app.idx ≡ peer.app.max_idx
      → resp_cb sys out garbage resp arg (success response) peer m
        ≡ some (
            exited 0 (record peer {
              app = record (peer.app) { io = sys.printf (total_text total) peer.app.io };
            }))
  unfolding resp_cb sum_total_got
  last_total whole =
      let test : (peer.app.idx == peer.app.max_idx) ≡ true = ground (arith, whole) in
      rw (read, test, resp_cb, sum_total_got) refl

  next_total :
      peer.app.idx ≢ peer.app.max_idx
      → peer.app.idx < 50
      → resp_cb sys out garbage resp arg (success response) peer m
        ≡ do_sum_call sys out garbage resp arg
            (record peer { app = with_total peer.app total })
            (amp_free_result (success response) m)
  unfolding resp_cb sum_total_got set_operand
  next_total more small =
      let test : (peer.app.idx == peer.app.max_idx) ≡ false = ground (arith, more) in
      let inside : ltb peer.app.idx 50 ≡ true = ground (arith, small) in
      rw (read, test, inside, resp_cb, sum_total_got, set_operand) refl

  -- The next call of it is sent, with the total and the next operand.
  pub next-IsSent :
      (c : ℤ)
      → out.write ≡ some (client_write sys)
      → IsTable callback_key peer.outstanding_requests
      → peer.app.idx ≢ peer.app.max_idx
      → peer.app.idx + 1 < 50
      → peer.app.operands (peer.app.idx + 1) ≡ c
      → IsLlong total
      → IsLlong c
      → IsLlong (total +ℤ c)
      → IsPlenty m
      → (peer' : Peer F A (SumState I)) × (m' : Memory) × (bytes : Bytes) × IsSent sys resp arg
          (record peer { app = with_total peer.app total })
          peer'
          bytes
          total
          c
        × IsPlenty m'
        × (resp_cb sys out garbage resp arg (success response) peer m ≡ some (returned peer' m'))
  next-IsSent c set v more small there total_fits c_fits sum_fits plenty =
      let st = with_total peer.app total in
      let peer1 : Peer F A (SumState I) = record peer { app = st } in
      let i = peer.app.idx in
      let first : st.operands i ≡ total = ground arith in
      let second : st.operands (i + 1) ≡ c = ground (arith, there) in
      let both : st.operands i +ℤ st.operands (i + 1) ≡ total +ℤ c =
        ap (λ x. x +ℤ st.operands (i + 1)) first ∙ ap (λ x. total +ℤ x) second in
      let (peer', m', bytes, sent, plenty', done) =
        do_sum_call-IsSent sys out garbage resp arg peer1 (amp_free_result (success response) m) set
          v small (subst IsLlong (sym first) total_fits) (subst IsLlong (sym second) c_fits)
          (subst IsLlong (sym both) sum_fits)
          (IsPlenty-after m (amp_free_result (success response) m) (free_result_steady response m)
            plenty) in
      (
        peer',
        m',
        bytes,
        subst (λ x. IsSent sys resp arg peer1 peer' bytes x c) first
            (subst (λ x. IsSent sys resp arg peer1 peer' bytes (st.operands i) x) second sent),
        plenty',
        next_total more (omega (arith, small)) ∙ done,
      )
