-- ===== src/Connection/Reachable.antt =====
-- What an application can make of a protocol object with the calls of amp.h.
use libamp.Common.{
  ℕ, ◌≡◌, sym, subst, arith, Option, none, some, ◌==◌, Option-cases, Bool-cases, inl, inr,
}
use libamp.Common.Int.{ℤ, pos}
use libamp.CString.{Bytes}
use libamp.CString.Laws.{responder_key}
use libamp.Memory.{Memory}
use libamp.Errors.{Result-cases}
use libamp.Box.{Box}
use libamp.Box.Serialize.{amp_serialize_box}
use libamp.Types.{amp_put_bytes}
use libamp.Table.{Table}
use libamp.Table.Laws.{IsTable, put-IsTable, remove-IsTable}
use libamp.Dispatch.{Responder, new_responder, put_responder}
use libamp.Dispatch.Laws.{remove_responder_table}
use libamp.Messages.{Request, answer}
use libamp.Calls.{Peer, do_write, amp_call, amp_call_no_answer}
use libamp.Handlers.{Application, amp_cancel, amp_respond, amp_add_responder, amp_remove_responder}
use libamp.Packets.Maps.{IsOrderly, IsTidy, app-IsOrderly}
use libamp.Connection.{Proto, Consumed, amp_new_proto, amp_reset_proto, amp_consume_bytes}
use libamp.Connection.New.{new_proto-Outcome}
use libamp.Connection.Maps.{consumed_peer, Orderly, consume_bytes-Orderly}
use libamp.Connection.Operations.{
  write-IsOrderly, call-IsOrderly, call_no_answer-IsOrderly, cancel-IsOrderly,
}

module _ {F A S : Type 0} (app : Application F A S) where
  -- One call on a protocol object, or a change of the application's own data.
  pub data Step : Proto F A S → Proto F A S → Type 0 where
    consumes :
        (proto : Proto F A S) (m : Memory) (buf : Bytes) (r : Consumed F A S)
        → amp_consume_bytes app proto m buf ≡ some r
        → Step proto r.proto
    calls :
        (proto : Proto F A S) (garbage : ℕ) (command : Bytes) (args : Box) (func : F) (arg : A)
        (m : Memory)
        → Step proto (record proto {
          peer = (amp_call app.output garbage proto.peer command args func arg m).proto;
        })
    tells :
        (proto : Proto F A S) (command : Bytes) (args : Box) (m : Memory)
        → Step proto (record proto {
          peer = (amp_call_no_answer app.output proto.peer command args m).proto;
        })
    responds :
        (proto : Proto F A S) (request : Request) (args : Box) (m : Memory) (ret : ℤ) (packet : Box)
        (peer : Peer F A S) (m' : Memory)
        → amp_respond app.output proto.peer request args m ≡ some (ret, packet, peer, m')
        → Step proto (record proto { peer = peer })
    cancels :
        (proto : Proto F A S) (ask_key : ℤ) (m : Memory)
        → Step proto (record proto { peer = (amp_cancel app proto.peer ask_key m).1 })
    adds :
        (proto : Proto F A S) (garbage command : Bytes) (func : F) (arg : A) (m : Memory)
        (peer : Peer F A S) (m' : Memory)
        → amp_add_responder garbage proto.peer command func arg m ≡ some (peer, m')
        → Step proto (record proto { peer = peer })
    removes :
        (proto : Proto F A S) (command : Bytes) (m : Memory)
        → Step proto (record proto { peer = (amp_remove_responder proto.peer command m).0 })
    resets : (proto : Proto F A S) (m : Memory) → Step proto (amp_reset_proto proto m).0
    acts :
        (proto : Proto F A S) (own : S)
        → Step proto (record proto { peer = record (proto.peer) { app = own } })

  -- What amp_new_proto makes, and any number of steps from it.
  pub data Reachable : Proto F A S → Type 0 where
    made :
        (own : S) (m : Memory) (proto : Proto F A S) (m' : Memory)
        → amp_new_proto own m ≡ some (some proto, m')
        → Reachable proto
    stepped : (proto proto' : Proto F A S) → Reachable proto → Step proto proto' → Reachable proto'

  -- The object that amp_new_proto made, if it did.
  abbrev OrderlyNew : Option (Option (Proto F A S) × Memory) → Type 0
  OrderlyNew none = Unit {0}
  OrderlyNew (some (none, m)) = Unit {0}
  OrderlyNew (some (some proto, m)) = IsOrderly proto.peer

  new-Orderly : (own : S) (m : Memory) → OrderlyNew (amp_new_proto own m)
  new-Orderly own m = elim (new_proto-Outcome F A own m) [
    | inl (proto, m', e, is_new, allocs, frees, freed) ↦
        subst OrderlyNew (sym e) (record { calls = is_new.calls; commands = is_new.commands })
    | inr (m', e, kept, failed) ↦ subst OrderlyNew (sym e) tt
  ]

  abbrev OrderlyAdded : Option (Peer F A S × Memory) → Type 0
  OrderlyAdded none = Unit {0}
  OrderlyAdded (some (peer, m)) = IsOrderly peer

  put_responder-IsTable :
      (map : Table Bytes (Responder F A)) (command : Bytes) (r : Responder F A) (m : Memory)
      → IsTable responder_key map
      → IsTable responder_key (put_responder map command r m).0
  unfolding put_responder
  put_responder-IsTable map command r m v =
      put-IsTable responder_key map command (record r { command = command }) m v

  add-Orderly :
      (garbage : Bytes) (peer : Peer F A S) (command : Bytes) (func : F) (arg : A) (m : Memory)
      → IsOrderly peer
      → OrderlyAdded (amp_add_responder garbage peer command func arg m)
  unfolding amp_add_responder
  add-Orderly garbage peer command func arg m v =
      let new = new_responder garbage func arg m in
      elim (Option-cases new.0) [
        | inl out ↦ rw (out, amp_add_responder) tt
        | inr (r, got) ↦
            rw (got, amp_add_responder)
              (record {
                calls = v.calls;
                commands = put_responder-IsTable peer.responders command r new.1 v.commands;
              })
      ]

  remove-IsOrderly :
      (peer : Peer F A S) (command : Bytes) (m : Memory)
      → IsOrderly peer
      → IsOrderly (amp_remove_responder peer command m).0
  unfolding amp_remove_responder
  remove-IsOrderly peer command m v = record {
    calls = v.calls;
    commands =
        subst (IsTable responder_key) (sym (remove_responder_table peer.responders command m))
          (remove-IsTable responder_key peer.responders command m v.commands);
  }

  abbrev OrderlyAnswer : Option (ℤ × Box × Peer F A S × Memory) → Type 0
  OrderlyAnswer none = Unit {0}
  OrderlyAnswer (some (ret, packet, peer, m)) = IsOrderly peer

  respond-Orderly :
      (tidy : IsTidy app) (peer : Peer F A S) (request : Request) (args : Box) (m : Memory)
      → IsOrderly peer
      → OrderlyAnswer (amp_respond app.output peer request args m)
  unfolding amp_respond
  respond-Orderly tidy peer request args m v = elim (Option-cases request.ask_key) [
    | inl e ↦
        let same : amp_respond app.output peer request args m ≡ none = ground (arith, e) in
        subst OrderlyAnswer (sym same) tt
    | inr (key, e) ↦
        let put = amp_put_bytes args answer key.value (pos key.size) m in
        let packet = amp_serialize_box put.1 put.2 in
        let here = amp_respond app.output peer request args m in
        elim (Bool-cases (put.0 == 0)) [
          | inr bad ↦
              let same : here ≡ some (pos put.0, put.1, peer, put.2) = ground (arith, e, bad) in
              subst OrderlyAnswer (sym same) v
          | inl done ↦ elim (Result-cases packet.0) [
            | inr (ret, failed) ↦
                let same : here ≡ some (pos ret, put.1, peer, packet.1) =
                  ground (arith, e, done, failed) in
                subst OrderlyAnswer (sym same) v
            | inl ((buf, size), good) ↦
                let wrote = do_write app.output buf size peer packet.1 in
                let same : here ≡ some (wrote.0, put.1, wrote.1, wrote.2) =
                  ground (arith, e, done, good) in
                subst OrderlyAnswer (sym same) (write-IsOrderly app tidy buf size peer packet.1 v)
          ]
        ]
  ]

  -- A step keeps the maps well formed.
  step-IsOrderly :
      IsTidy app
      → (proto proto' : Proto F A S) → Step proto proto'
      → IsOrderly proto.peer
      → IsOrderly proto'.peer
  unfolding amp_reset_proto
  step-IsOrderly tidy _ _ (consumes proto m buf r e) v =
      subst (λ x. Orderly (consumed_peer x)) e (consume_bytes-Orderly app tidy proto m buf v)
  step-IsOrderly tidy _ _ (calls proto garbage command args func arg m) v =
      call-IsOrderly app tidy garbage proto.peer command args func arg m v
  step-IsOrderly tidy _ _ (tells proto command args m) v =
      call_no_answer-IsOrderly app tidy proto.peer command args m v
  step-IsOrderly tidy _ _ (responds proto request args m ret packet peer m' e) v =
      subst OrderlyAnswer e (respond-Orderly tidy proto.peer request args m v)
  step-IsOrderly tidy _ _ (cancels proto ask_key m) v =
      cancel-IsOrderly app tidy proto.peer ask_key m v
  step-IsOrderly tidy _ _ (adds proto garbage command func arg m peer m' e) v =
      subst OrderlyAdded e (add-Orderly garbage proto.peer command func arg m v)
  step-IsOrderly tidy _ _ (removes proto command m) v = remove-IsOrderly proto.peer command m v
  step-IsOrderly tidy _ _ (resets proto m) v = v
  step-IsOrderly tidy _ _ (acts proto own) v = app-IsOrderly proto.peer own v

  -- Whatever is done with an object that amp_new_proto made, its maps of requests and of responders
  -- are well formed: after any number of calls of amp_consume_bytes, amp_call, amp_call_no_answer,
  -- amp_respond, amp_cancel, amp_add_responder, amp_remove_responder and amp_reset_proto, in any
  -- order, and with allocations that may fail, if no call met undefined behaviour and the handlers of the
  -- application keep the maps well formed.
  pub Reachable-IsOrderly :
      IsTidy app → (proto : Proto F A S) → Reachable proto → IsOrderly proto.peer
  Reachable-IsOrderly tidy _ (made own m proto m' e) = subst OrderlyNew e (new-Orderly own m)
  Reachable-IsOrderly tidy _ (stepped proto proto' reached step) =
      step-IsOrderly tidy proto proto' step (Reachable-IsOrderly tidy proto reached)
