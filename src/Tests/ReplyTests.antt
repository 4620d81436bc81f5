-- ===== src/Tests/ReplyTests.antt =====
-- The theorem on the reply to a command that no responder takes, at a command "Sum".
use libamp.Common.{ℕ, ◌+◌, ◌≡◌, refl, arith, some}
use libamp.Common.Int.{pos}
use libamp.CString.{Bytes, codes}
use libamp.Memory.{Memory, release}
use libamp.Errors.{ok}
use libamp.Box.{Box, empty_box, amp_free_box}
use libamp.Box.Serialize.{amp_serialize_box}
use libamp.Messages.{Request}
use libamp.Calls.{WriteHandler}
use libamp.Handlers.{send_unhandled_command_error}
use libamp.Handlers.Reply.{RefusesCommand, unhandled_reply}
use libamp.Tests.CallTests.{new_peer}
use libamp.Tests.Samples.{plenty}

-- A handler that adds up the sizes of what is written.
abbrev measure : WriteHandler ℕ ℕ ℕ
measure buf size peer m = (pos 0, record peer { app = peer.app + size }, release 1 m)

abbrev sum_request : Request
sum_request = record {
  args = some empty_box;
  command = record { value = codes "Sum"; size = 3 };
  ask_key = some (record { value = codes "17"; size = 2 });
}

unhandled_reply_example :
    (reply : Box) × (m' : Memory) × (bytes : Bytes) × (size : ℕ) × RefusesCommand sum_request
      (codes "17")
      2
      reply
    × ((amp_serialize_box reply m').0 ≡ ok (bytes, size))
    × (send_unhandled_command_error (some measure) sum_request (codes "17") 2 new_peer plenty ≡ (
        let (ret, peer', m'') = measure bytes size new_peer (amp_serialize_box reply m').1 in
        some (ret, peer', release 1 (amp_free_box (some reply) m''))))
unhandled_reply_example =
    unhandled_reply measure sum_request new_peer (codes "17") 2 plenty (omega arith) (omega arith)
      (omega arith) (λ n. refl)
