-- ===== src/Examples/Server/Steady.antt =====
-- sum_responder (examples/asyncserver.c) leaves the allocator as it is.
use libamp.Common.{ℕ, ◌≡◌, arith, Option, none, some, Option-cases, inl, inr}
use libamp.Common.Int.{ℤ, pos}
use libamp.CString.{Bytes, codes}
use libamp.Memory.{Memory}
use libamp.Errors.{Result-cases}
use libamp.Box.{Box, amp_new_box}
use libamp.Box.Serialize.{amp_serialize_box}
use libamp.Types.{amp_get_long_long, amp_put_long_long, amp_put_bytes}
use libamp.Messages.{Request, answer, amp_free_request}
use libamp.Messages.Steady.{
  new_box_steady, put_bytes_steady, put_long_long_steady, serialize_steady, free_request_steady,
  free_box_steady,
}
use libamp.Calls.{Peer, WriteHandler, Output, do_write}
use libamp.Handlers.{amp_respond}
use libamp.Examples.Server.{add_long_long, send_total, sum_answer, sum_responder}

-- The memory that sum_responder leaves.
abbrev pub after_responder : {F A S : Type 0} → Memory → Option (Peer F A S × Memory) → Memory
after_responder m none = m
after_responder m (some (peer, m')) = m'

module _ {F A S : Type 0} (fprintf : Bytes → S → S) (w : WriteHandler F A S) (out : Output F A S)
    (set : out.write ≡ some w)
    (law : (buf : Bytes) (size : ℕ) (peer : Peer F A S) (m : Memory)
      → (w buf size peer m).2.succeeds ≡ m.succeeds) where
  abbrev after_respond : Memory → Option (ℤ × Box × Peer F A S × Memory) → Memory
  after_respond m none = m
  after_respond m (some (ret, packet, peer, m')) = m'

  respond_steady :
      (peer : Peer F A S) (req : Request) (args : Box) (m : Memory)
      → (after_respond m (amp_respond out peer req args m)).succeeds ≡ m.succeeds
  unfolding amp_respond do_write
  respond_steady peer req args m = elim (Option-cases req.ask_key) [
    | inl e ↦ ground (arith, e)
    | inr (key, e) ↦
        let put = amp_put_bytes args answer key.value (pos key.size) m in
        let f = put_bytes_steady args answer key.value key.size m in
        let g = serialize_steady put.1 put.2 in
        elim (Result-cases (amp_serialize_box put.1 put.2).0) [
          | inr (e2, failed) ↦ ground (arith, e, f, g, failed)
          | inl ((bytes, size), good) ↦
              ground
                (arith, e, f, g, good, set, law bytes size peer (amp_serialize_box put.1 put.2).1)
        ]
  ]

  abbrev after_sum : Memory → Option (Option Box × Peer F A S × Memory) → Memory
  after_sum m none = m
  after_sum m (some (packet, peer, m')) = m'

  send_total_steady :
      (peer : Peer F A S) (req : Request) (box : Box) (total : ℤ) (m : Memory)
      → (after_sum m (send_total fprintf out peer req box total m)).succeeds ≡ m.succeeds
  unfolding send_total
  send_total_steady peer req box total m =
      let put = amp_put_long_long box (codes "total") total m in
      let f : put.2.succeeds ≡ m.succeeds = put_long_long_steady box (codes "total") total m in
      let g = respond_steady peer req put.1 put.2 in
      elim (Option-cases (amp_respond out peer req put.1 put.2)) [
        | inl e ↦ ground (arith, f, e)
        | inr (x, e) ↦ ground (arith, f, g, e)
      ]

  sum_answer_steady :
      (peer : Peer F A S) (req : Request) (args : Box) (m : Memory)
      → (after_sum m (sum_answer fprintf out peer req args m)).succeeds ≡ m.succeeds
  unfolding sum_answer
  sum_answer_steady peer req args m = elim (Result-cases (amp_get_long_long args (codes "a"))) [
    | inr (e, no_a) ↦ ground (arith, no_a)
    | inl (a, first) ↦ elim (Result-cases (amp_get_long_long args (codes "b"))) [
      | inr (e, no_b) ↦ ground (arith, first, no_b)
      | inl (b, second) ↦
          let m1 = (amp_new_box m).1 in
          let f = new_box_steady m in
          elim (Option-cases (amp_new_box m).0) [
            | inl failed ↦ ground (arith, first, second, f, failed)
            | inr (box, made) ↦ elim (Option-cases (add_long_long a b)) [
              | inl over ↦ ground (arith, first, second, f, made, over)
              | inr (total, sum) ↦
                  ground
                    (arith, first, second, f, made, sum, send_total_steady peer req box total m1)
            ]
          ]
    ]
  ]

  pub sum_responder_steady :
      (peer : Peer F A S) (req : Request) (m : Memory)
      → (after_responder m (sum_responder fprintf out peer req m)).succeeds ≡ m.succeeds
  unfolding sum_responder
  sum_responder_steady peer req m = elim (Option-cases req.args) [
    | inl e ↦ ground (arith, e)
    | inr (args, e) ↦
        let f = sum_answer_steady peer req args m in
        elim (Option-cases (sum_answer fprintf out peer req args m)) [
          | inl undefined ↦ ground (arith, e, undefined)
          | inr ((packet, peer', m'), done) ↦
              let g = free_request_steady req m' in
              let h = free_box_steady packet (amp_free_request req m') in
              ground (arith, e, f, done, g, h)
        ]
  ]
