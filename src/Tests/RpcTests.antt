-- ===== src/Tests/RpcTests.antt =====
-- The theorems on remote calls, at a command "sum" and at the answer to a request that waits.
use libamp.Common.{ℕ, ◌+◌, ◌≡◌, refl, ◌∙◌, length, some, none, false, arith}
use libamp.Common.Int.{pos}
use libamp.CString.{Bytes, str_eq, hash_responder_key}
use libamp.CString.Laws.{responder_key}
use libamp.Memory.{Memory}
use libamp.Memory.Plenty.{IsPlenty}
use libamp.Box.{Box, empty_box, put_buf, get_buf}
use libamp.Box.Valid.{IsValid, empty_box-IsValid}
use libamp.Box.Put.{put_buf-IsValid}
use libamp.Box.Stored.{IsGood}
use libamp.Types.Decimal.{show_ℕ}
use libamp.Types.Stored.{IsText}
use libamp.Table.{Table, empty_table, table_get}
use libamp.Table.Laws.{table_get-empty, empty_table-IsTable}
use libamp.Dispatch.{Responder, callback_key, put_responder, get_responder, free_callback}
use libamp.Dispatch.Laws.{get_responder-put}
use libamp.Messages.{Error, Request, failure, success, command_key, answer}
use libamp.Calls.{Peer, WriteHandler, amp_call}
use libamp.Calls.Written.{IsCalling, called}
use libamp.Handlers.{amp_respond}
use libamp.Handlers.Respond.{responded}
use libamp.Packets.{process_full_packet}
use libamp.Packets.Answers.{Without}
use libamp.Packets.Commands.{request_of, command_calls_responder}
use libamp.Connection.{Proto, Consumed, new_parser, amp_consume_bytes}
use libamp.Rpc.Packet.{IsReady}
use libamp.Rpc.Request.{IsRequest, text_chunk, call_reaches_responder}
use libamp.Rpc.Refusal.{refusal_text, logged}
use libamp.Rpc.Failure.{refused_call_reaches_callback}
use libamp.Handlers.Refusal.{unhandled}
use libamp.Rpc.Answer.{respond_reaches_callback}
use libamp.Tests.CallTests.{new_peer}
use libamp.Tests.ConnectionTests.{
  counting, counting-IsSteady, plenty-IsPlenty, waiting_callback, waiting_requests-IsTable,
  waiting_proto, at_start, connection_program,
}
use libamp.Tests.Samples.{
  plenty, sum_key, sample_box, sample_box-IsValid, sample_box-HasBytes, box_program,
}

abbrev sum_handler : Responder ℕ ℕ
sum_handler = record { command = sum_key; func = 3; arg = 4 }

abbrev sum_handlers : Table Bytes (Responder ℕ ℕ)
sum_handlers = (put_responder (empty_table 127) sum_key sum_handler plenty).0

names_program : Unit {0}
unfolding box_program empty_table table_get get_responder hash_responder_key
names_program = tt

sum_handler-found : get_responder sum_handlers (text_chunk sum_key).value ≡ some sum_handler
sum_handler-found =
    get_responder-put (empty_table 127) sum_key sum_handler plenty
      (empty_table-IsTable responder_key 127 (omega arith)) (text_chunk sum_key).value
    ∙ unfold names_program in refl

abbrev serving_peer : Peer ℕ ℕ ℕ
serving_peer = record new_peer { responders = sum_handlers }

abbrev serving_proto : Proto ℕ ℕ ℕ
serving_proto = record { parser = new_parser; box = some empty_box; peer = serving_peer }

-- The packet that names the command.
abbrev command_box : Box
command_box = (put_buf empty_box command_key sum_key (pos 3) plenty).1

command_box-IsValid : IsValid command_box
command_box-IsValid =
    put_buf-IsValid empty_box command_key sum_key (pos 3) plenty empty_box-IsValid (omega arith)

command_calls_responder_example :
    (m' : Memory) × (m'.succeeds ≡ plenty.succeeds)
    × (process_full_packet counting serving_peer command_box plenty ≡ (
        let (peer', m'') =
          counting.respond 3 4 (request_of command_box (sum_key, 3)) serving_peer m' in
        some (pos 0, none, peer', m'')))
command_calls_responder_example =
    command_calls_responder counting serving_peer command_box plenty (sum_key, 3) sum_handler
      command_box-IsValid plenty-IsPlenty (unfold connection_program in refl) sum_handler-found

sample_box-IsGood : IsGood sample_box
sample_box-IsGood = record { valid = sample_box-IsValid; octets = sample_box-HasBytes }

sum_key-IsText : IsText sum_key
sum_key-IsText = record { clean = omega arith; octets = omega arith; short = omega arith }

abbrev writes : WriteHandler ℕ ℕ ℕ
writes buf size peer m = (pos 0, record peer { app = peer.app + 10 }, m)

call_reaches_responder_example :
    (packet : Box) × (bytes : Bytes) × (before : Peer ℕ ℕ ℕ) × (m2 : Memory) × (request : Request)
    × (m3 : Memory) × (r : Consumed ℕ ℕ ℕ) × IsCalling new_peer 1
        (record { ask_key = 9; func = 5; arg = 6 })
        before
    × (amp_call counting.output 9 new_peer sum_key sample_box 5 6 plenty
        ≡ called writes bytes before m2 1 packet)
    × IsRequest sum_key 1 sample_box request
    × IsPlenty m3
    × (amp_consume_bytes counting serving_proto plenty bytes ≡ some r)
    × (let (peer', m4) = counting.respond 3 4 request serving_peer m3 in IsReady r peer' m4)
call_reaches_responder_example =
    call_reaches_responder writes counting.output 9 new_peer sum_key sample_box 5 6 plenty counting
      serving_proto sum_handler plenty refl (empty_table-IsTable callback_key 127 (omega arith))
      sum_key-IsText sample_box-IsGood plenty-IsPlenty counting-IsSteady at_start refl
      sum_handler-found plenty-IsPlenty

abbrev first_request : Request
first_request = record {
  command = text_chunk sum_key;
  ask_key = some (text_chunk (show_ℕ 1));
  args = none;
}

respond_reaches_callback_example :
    (packet : Box) × (bytes : Bytes) × (m2 : Memory) × (copy : Box) × (before : Peer ℕ ℕ ℕ)
    × (m3 : Memory) × (r : Consumed ℕ ℕ ℕ) × (amp_respond counting.output new_peer first_request
          sample_box plenty
        ≡ responded writes bytes new_peer m2 packet)
    × ((j : Bytes) → str_eq j answer ≡ false → get_buf copy j ≡ get_buf sample_box j)
    × Without waiting_proto.peer 1 before
    × IsPlenty m3
    × (amp_consume_bytes counting waiting_proto plenty bytes ≡ some r)
    × (let (peer', m4) =
          counting.call_back 7 8 (success (record { args = copy; answer_key = 1 })) before m3 in
        IsReady r peer' (free_callback (record waiting_callback { ask_key = 0 }) m4))
unfolding sample_box
respond_reaches_callback_example =
    respond_reaches_callback writes counting.output new_peer first_request sample_box plenty 1
      counting waiting_proto (record waiting_callback { ask_key = 0 }) plenty refl refl
      (omega arith) (unfold box_program in refl) sample_box-IsGood plenty-IsPlenty counting-IsSteady
      at_start refl waiting_requests-IsTable (unfold connection_program in refl) plenty-IsPlenty

abbrev new_proto : Proto ℕ ℕ ℕ
new_proto = record { parser = new_parser; box = some empty_box; peer = new_peer }

refused_call_reaches_callback_example :
    (packet : Box) × (bytes : Bytes) × (calling : Peer ℕ ℕ ℕ) × (m1 : Memory) × (bytes' : Bytes)
    × (m2 m3 : Memory) × (served : Consumed ℕ ℕ ℕ) × (e : Error) × (before : Peer ℕ ℕ ℕ)
    × (m4 : Memory) × (r : Consumed ℕ ℕ ℕ) × IsCalling new_peer 1
        (record { ask_key = 9; func = 5; arg = 6 })
        calling
    × (amp_call counting.output 9 new_peer sum_key sample_box 5 6 plenty
        ≡ called writes bytes calling m1 1 packet)
    × (amp_consume_bytes counting new_proto plenty bytes ≡ some served)
    × IsReady served (writes bytes' (length bytes') (logged counting sum_key new_peer) m2).1 m3
    × (e.error_code ≡ some (text_chunk unhandled))
    × (e.error_descr ≡ some (text_chunk (refusal_text sum_key)))
    × Without waiting_proto.peer 1 before
    × (amp_consume_bytes counting waiting_proto plenty bytes' ≡ some r)
    × (let (peer', m5) = counting.call_back 7 8 (failure e) before m4 in
        IsReady r peer' (free_callback (record waiting_callback { ask_key = 0 }) m5))
unfolding free_callback
refused_call_reaches_callback_example =
    refused_call_reaches_callback writes counting.output 9 new_peer sum_key sample_box 5 6 plenty
      counting writes new_proto plenty counting waiting_proto
      (record waiting_callback { ask_key = 0 }) plenty refl
      (empty_table-IsTable callback_key 127 (omega arith)) sum_key-IsText sample_box-IsGood
      plenty-IsPlenty (omega arith) counting-IsSteady refl (λ buf size p n. refl) at_start refl
      (unfold names_program in table_get-empty responder_key 127 (text_chunk sum_key).value)
      (omega arith) plenty-IsPlenty counting-IsSteady at_start refl waiting_requests-IsTable
      (unfold connection_program in refl) plenty-IsPlenty
