-- ===== src/Connection/Maps.antt =====
-- amp_consume_bytes (amp.c) keeps the maps of the protocol object well formed.
use libamp.Common.{
  ℕ, zero, suc, ◌+◌, ◌≡◌, sym, subst, arith, [], ◌∷◌, Option, none, some, length, drop, ◌==◌,
  Option-cases, Bool-cases, inl, inr,
}
use libamp.CString.{Bytes}
use libamp.Memory.{Memory}
use libamp.Box.{Box}
use libamp.Parser.{amp_parse_box}
use libamp.Handlers.{Application}
use libamp.Calls.{Peer}
use libamp.Packets.{Handled, process_full_packet}
use libamp.Packets.Maps.{IsOrderly, IsTidy, OrderlyHandled, process-IsOrderly}
use libamp.Connection.{Proto, Consumed, dispatch_box, consume_loop, amp_consume_bytes}

-- The fields that handlers reach, if the call did not meet undefined behaviour.
abbrev pub consumed_peer : {F A S : Type 0} → Option (Consumed F A S) → Option (Peer F A S)
consumed_peer none = none
consumed_peer (some r) = some r.proto.peer

abbrev handled_peer : {F A S : Type 0} → Handled F A S → Option (Peer F A S)
handled_peer none = none
handled_peer (some (ret, kept, peer, m)) = some peer

-- They are undefined, or their maps are well formed.
abbrev pub Orderly : {F A S : Type 0} → Option (Peer F A S) → Type 0
Orderly none = Unit {0}
Orderly (some peer) = IsOrderly peer

Orderly-handled : {F A S : Type 0} (h : Handled F A S) → OrderlyHandled h → Orderly (handled_peer h)
Orderly-handled none v = tt
Orderly-handled (some (ret, kept, peer, m)) v = v

module _ {F A S : Type 0} (app : Application F A S) (tidy : IsTidy app) where
  dispatch_peer :
      (proto : Proto F A S) (box : Box) (m : Memory)
      → proto.box ≡ some box
      → consumed_peer (dispatch_box app proto m)
        ≡ handled_peer (process_full_packet app proto.peer box m)
  unfolding dispatch_box
  dispatch_peer proto box m e = elim (Option-cases (process_full_packet app proto.peer box m)) [
    | inl undefined ↦ ground (arith, e, undefined)
    | inr (h, handled) ↦ ground (arith, e, handled)
  ]

  dispatch-Orderly :
      (proto : Proto F A S) (m : Memory)
      → IsOrderly proto.peer
      → Orderly (consumed_peer (dispatch_box app proto m))
  unfolding dispatch_box
  dispatch-Orderly proto m v = elim (Option-cases proto.box) [
    | inl e ↦
        let same : consumed_peer (dispatch_box app proto m) ≡ none = ground (arith, e) in
        subst Orderly (sym same) tt
    | inr (box, e) ↦ subst Orderly (sym (dispatch_peer proto box m e)) (
        Orderly-handled (process_full_packet app proto.peer box m)
          (process-IsOrderly app tidy proto.peer box m v))
  ]

  loop-Orderly :
      (fuel : ℕ) (proto : Proto F A S) (m : Memory) (buf : Bytes)
      → IsOrderly proto.peer
      → Orderly (consumed_peer (consume_loop fuel app proto m buf))
  unfolding consume_loop
  loop-Orderly zero proto m buf v = tt
  loop-Orderly (suc fuel) proto m [] v = v
  loop-Orderly (suc fuel) proto m (c ∷ s) v =
      let here = consumed_peer (consume_loop (suc fuel) app proto m (c ∷ s)) in
      elim (Option-cases (amp_parse_box proto.parser proto.box m (c ∷ s))) [
        | inl undefined ↦
            let same : here ≡ none = ground (arith, undefined) in subst Orderly (sym same) tt
        | inr (r, parsed) ↦
            let proto1 : Proto F A S = record proto { parser = r.parser; box = r.box } in
            let rest = drop r.consumed (c ∷ s) in
            elim (Bool-cases r.full) [
              | inl full ↦
                  let f = dispatch-Orderly proto1 r.memory v in
                  elim (Option-cases (dispatch_box app proto1 r.memory)) [
                    | inl undefined ↦
                        let same : here ≡ none = ground (arith, parsed, full, undefined) in
                        subst Orderly (sym same) tt
                    | inr (d, dispatched) ↦
                        let v1 : IsOrderly d.proto.peer =
                          subst (λ x. Orderly (consumed_peer x)) dispatched f in
                        elim (Bool-cases (d.code == 0)) [
                          | inl fine ↦
                              let same : here
                                  ≡ consumed_peer (consume_loop fuel app d.proto d.memory rest) =
                                ground (arith, parsed, full, dispatched, fine) in
                              subst Orderly (sym same) (loop-Orderly fuel d.proto d.memory rest v1)
                          | inr failed ↦
                              let same : here ≡ some d.proto.peer =
                                ground (arith, parsed, full, dispatched, failed) in
                              subst Orderly (sym same) v1
                        ]
                  ]
              | inr part ↦ elim (Bool-cases (r.parser.error == 0)) [
                | inl fine ↦
                    let same : here ≡ consumed_peer (consume_loop fuel app proto1 r.memory rest) =
                      ground (arith, parsed, part, fine) in
                    subst Orderly (sym same) (loop-Orderly fuel proto1 r.memory rest v)
                | inr failed ↦
                    let same : here ≡ some proto.peer = ground (arith, parsed, part, failed) in
                    subst Orderly (sym same) v
              ]
            ]
      ]

  pub consume_bytes-Orderly :
      (proto : Proto F A S) (m : Memory) (buf : Bytes)
      → IsOrderly proto.peer
      → Orderly (consumed_peer (amp_consume_bytes app proto m buf))
  unfolding amp_consume_bytes
  consume_bytes-Orderly proto m buf v =
      let f = loop-Orderly (length buf + 1) proto m buf v in
      elim (Bool-cases (proto.parser.error == 0)) [
        | inl fine ↦
            let same : consumed_peer (amp_consume_bytes app proto m buf)
                ≡ consumed_peer (consume_loop (length buf + 1) app proto m buf) =
              ground (arith, fine) in
            subst Orderly (sym same) f
        | inr stuck ↦
            let same : consumed_peer (amp_consume_bytes app proto m buf) ≡ some proto.peer =
              ground (arith, stuck) in
            subst Orderly (sym same) v
      ]
