-- ===== src/Tests/CallTests.antt =====
-- The theorem on amp_call, at a new protocol object with a write handler that keeps the number of bytes.
use libamp.Common.{ℕ, ◌+◌, ◌%◌, ◌^◌, ◌⊎◌, none, some, arith}
use libamp.Common.Int.{pos}
use libamp.Memory.{release}
use libamp.CString.{codes}
use libamp.Box.{empty_box}
use libamp.Table.{empty_table}
use libamp.Table.Laws.{table_get-empty, empty_table-IsTable}
use libamp.Dispatch.{callback_key}
use libamp.Calls.{Peer, Output, amp_call}
use libamp.Calls.Outcome.{Written, Undone, call_outcome}
use libamp.Tests.Samples.{plenty}

-- Handlers and their arguments are numbers here.
abbrev pub new_peer : Peer ℕ ℕ ℕ
new_peer = record {
  last_ask_key = 0;
  outstanding_requests = empty_table 127;
  responders = empty_table 127;
  app = 0;
}

abbrev counting : Output ℕ ℕ ℕ
counting = record {
  log = none;
  write = some (λ buf size peer m. (pos 0, record peer { app = peer.app + size }, release 1 m));
}

call_outcome_example :
    Written counting new_peer
      ((new_peer.last_ask_key + 1) % 2 ^ 32)
      (record { ask_key = 0; func = 7; arg = 8 })
      (amp_call counting 0 new_peer (codes "Sum") empty_box 7 8 plenty)
    ⊎ Undone new_peer empty_box plenty 0
        (amp_call counting 0 new_peer (codes "Sum") empty_box 7 8 plenty)
call_outcome_example =
    call_outcome counting 0 new_peer (codes "Sum") empty_box 7 8 plenty
      (empty_table-IsTable callback_key 127 (omega arith)) (table_get-empty callback_key 127 1)
