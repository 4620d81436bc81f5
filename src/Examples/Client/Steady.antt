-- ===== src/Examples/Client/Steady.antt =====
-- resp_cb (examples/sumclient.c) leaves the allocator as it is.
use libamp.Common.{
  ℕ, ◌+◌, ◌≡◌, refl, ◌∙◌, arith, Option, none, some, ◌==◌, Option-cases, inl, inr, Bool-cases,
}
use libamp.Common.Int.{ℤ, pos, eqb_ℤ}
use libamp.CString.{codes}
use libamp.Memory.{Memory}
use libamp.Errors.{Result-cases}
use libamp.Box.{amp_new_box}
use libamp.Types.{amp_get_long_long, amp_put_long_long}
use libamp.Messages.{CallResult, success, failure, cancelled, amp_free_result}
use libamp.Messages.Steady.{new_box_steady, put_long_long_steady}
use libamp.Calls.{Peer, Output, Called, amp_call}
use libamp.Calls.Steady.{amp_call_steady}
use libamp.Examples.Server.{sum_command}
use libamp.Examples.Session.{free_result_steady}
use libamp.Examples.Client.{
  SumState, System, Ran, returned, exited, operand, set_operand, client_write, sum_called,
  do_sum_call, sum_failed, sum_total_got, resp_cb,
}

-- The memory behind a function that returned.
abbrev pub after_run : {F A I : Type 0} → Memory → Option (Ran F A I) → Memory
after_run m none = m
after_run m (some (returned proto m')) = m'
after_run m (some (exited code proto)) = m

module _ {F A I : Type 0} (sys : System I) (out : Output F A (SumState I))
    (set : out.write ≡ some (client_write sys)) (garbage : ℕ) (resp : F) (arg : A) where
  sum_called_steady :
      (c : Called F A (SumState I)) (m : Memory)
      → c.memory.succeeds ≡ m.succeeds
      → (after_run m (some (sum_called sys c))).succeeds ≡ m.succeeds
  unfolding sum_called
  sum_called_steady c m h = elim (Bool-cases (eqb_ℤ c.ret (pos 0))) [
    | inl e ↦ ground (arith, e, h)
    | inr e ↦ ground (arith, e)
  ]

  do_sum_call_steady :
      (proto : Peer F A (SumState I)) (m : Memory)
      → (after_run m (do_sum_call sys out garbage resp arg proto m)).succeeds ≡ m.succeeds
  unfolding do_sum_call client_write
  do_sum_call_steady proto m =
      let new = amp_new_box m in
      let f = new_box_steady m in
      let i = proto.app.idx in
      elim (Option-cases new.0) [
        | inl failed ↦ ground (arith, failed)
        | inr (box, made) ↦ elim (Option-cases (operand proto.app i)) [
          | inl out_of ↦ ground (arith, made, out_of)
          | inr (a, first) ↦ elim (Option-cases (operand proto.app (i + 1))) [
            | inl out_of ↦ ground (arith, made, first, out_of)
            | inr (b, second) ↦
                let put1 = amp_put_long_long box (codes "a") a new.1 in
                let put2 = amp_put_long_long put1.1 (codes "b") b put1.2 in
                let proto1 : Peer F A (SumState I) = record proto {
                  app = record (proto.app) { idx = i + 1 };
                } in
                let c = amp_call out garbage proto1 sum_command put2.1 resp arg put2.2 in
                let g =
                  amp_call_steady (client_write sys) out set (λ buf size peer m. refl) garbage
                    proto1 sum_command put2.1 resp arg put2.2
                  ∙ put_long_long_steady put1.1 (codes "b") b put1.2
                  ∙ put_long_long_steady box (codes "a") a new.1
                  ∙ f in
                rw (made, first, second, do_sum_call) (sum_called_steady c m g)
          ]
        ]
      ]

  after_trans :
      (m m1 : Memory) (x : Option (Ran F A I))
      → m1.succeeds ≡ m.succeeds
      → (after_run m1 x).succeeds ≡ m1.succeeds
      → (after_run m x).succeeds ≡ m.succeeds
  after_trans m m1 none e h = refl
  after_trans m m1 (some (returned proto m')) e h = h ∙ e
  after_trans m m1 (some (exited code proto)) e h = refl

  total_got_steady :
      (total : ℤ) (proto : Peer F A (SumState I)) (m : Memory)
      → (after_run m (sum_total_got sys out garbage resp arg total proto m)).succeeds ≡ m.succeeds
  unfolding sum_total_got
  total_got_steady total proto m = elim (Bool-cases (proto.app.idx == proto.app.max_idx)) [
    | inl e ↦ ground (arith, e)
    | inr e ↦ elim (Option-cases (set_operand proto.app proto.app.idx total)) [
      | inl out_of ↦ ground (arith, e, out_of)
      | inr (state, there) ↦
          rw (e, there, sum_total_got) (do_sum_call_steady (record proto { app = state }) m)
    ]
  ]

  pub resp_cb_steady :
      (result : CallResult) (proto : Peer F A (SumState I)) (m : Memory)
      → (after_run m (resp_cb sys out garbage resp arg result proto m)).succeeds ≡ m.succeeds
  unfolding resp_cb sum_failed
  resp_cb_steady (success r) proto m =
      let freed = amp_free_result (success r) m in
      elim (Result-cases (amp_get_long_long r.args (codes "total"))) [
        | inr (e, missing) ↦ rw (missing, resp_cb) refl
        | inl (total, there) ↦
            rw (there, resp_cb)
              (after_trans m freed (sum_total_got sys out garbage resp arg total proto freed)
                (free_result_steady r m) (total_got_steady total proto freed))
      ]
  resp_cb_steady (failure e) proto m = elim (Option-cases e.error_descr) [
    | inl none_there ↦ ground (arith, none_there)
    | inr (descr, there) ↦ ground (arith, there)
  ]
  resp_cb_steady cancelled proto m = refl
