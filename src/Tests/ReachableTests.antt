-- ===== src/Tests/ReachableTests.antt =====
-- The theorem on what can be made of a protocol object, at a call and the cancelling of it.
use libamp.Common.{ℕ, subst, Option, none, some}
use libamp.Common.Int.{pos}
use libamp.CString.{Bytes}
use libamp.Memory.{Memory}
use libamp.Calls.{Peer, WriteHandler, amp_call}
use libamp.Handlers.{amp_cancel}
use libamp.Packets.Maps.{IsOrderly, IsTidy}
use libamp.Connection.{Proto}
use libamp.Connection.Life.{fresh_proto}
use libamp.Connection.New.{new_proto_made}
use libamp.Connection.Reachable.{Reachable, made, stepped, calls, cancels, Reachable-IsOrderly}
use libamp.Tests.ConnectionTests.{counting, plenty-IsPlenty}
use libamp.Tests.Samples.{plenty, sum_key, sample_box}

abbrev KeptBy : Bytes → ℕ → Peer ℕ ℕ ℕ → Memory → Option (WriteHandler ℕ ℕ ℕ) → Type 0
KeptBy buf size peer m none = Unit {0}
KeptBy buf size peer m (some w) = IsOrderly (w buf size peer m).1

counting-IsTidy : IsTidy counting
counting-IsTidy = record {
  write = λ w set buf size peer m v.
      subst (KeptBy buf size peer m) set (record { calls = v.calls; commands = v.commands });
  respond = λ f arg request peer m v. record { calls = v.calls; commands = v.commands };
  call_back = λ f arg result peer m v. record { calls = v.calls; commands = v.commands };
}

abbrev begun : Proto ℕ ℕ ℕ
begun = fresh_proto 0

abbrev asking : Proto ℕ ℕ ℕ
asking = record begun {
  peer = (amp_call counting.output 9 begun.peer sum_key sample_box 5 6 plenty).proto;
}

abbrev cancelling : Proto ℕ ℕ ℕ
cancelling = record asking { peer = (amp_cancel counting asking.peer (pos 1) plenty).1 }

cancelling-Reachable : Reachable counting cancelling
cancelling-Reachable =
    let (m, found_memory, e) = new_proto_made ℕ ℕ 0 plenty plenty-IsPlenty in
    stepped asking cancelling
      (stepped begun asking (made 0 plenty begun m e) (calls begun 9 sum_key sample_box 5 6 plenty))
      (cancels asking (pos 1) plenty)

Reachable-IsOrderly_example : IsOrderly cancelling.peer
Reachable-IsOrderly_example =
    Reachable-IsOrderly counting counting-IsTidy cancelling cancelling-Reachable
