-- ===== src/Tests/ConnectionTests.antt =====
-- The theorems on the connection, at the bytes of an answer to a request that waits.
use libamp.Common.{◌*◌, ℕ, ◌≡◌, ◌⊎◌, refl, none, some, [], ◌∷◌, ◌++◌, arith, ◌+◌}
use libamp.Common.Int.{pos, to_unsigned, ◌-ℤ◌, ◌+ℤ◌, ◌*ℤ◌}
use libamp.CString.{Bytes, codes}
use libamp.Memory.{Memory}
use libamp.Memory.Plenty.{IsPlenty}
use libamp.Errors.{no_such_ask_key}
use libamp.Buftoll.{buftoll, digits_loop, cutoff, cutlim, too_big, add_digit}
use libamp.Box.{Box, empty_box, put_buf, amp_num_keys}
use libamp.Box.Valid.{empty_box-IsValid}
use libamp.CString.Laws.{responder_key}
use libamp.Types.{amp_get_uint}
use libamp.Table.{Table, empty_table, table_get, table_put}
use libamp.Table.Laws.{IsTable, empty_table-IsTable, put-IsTable}
use libamp.Dispatch.{Callback, callback_key, free_callback}
use libamp.Messages.{success, cancelled, answer}
use libamp.Parser.{
  amp_parse_box, parse_loop, round, key_len_round, key_data_round, val_len_round, val_data_round,
  store_pair, memcpy_at, key_data_read,
}
use libamp.Parser.Stage.{start}
use libamp.Parser.Represents.{Represents}
use libamp.Calls.{Peer}
use libamp.Calls.Laws.{outstanding}
use libamp.Handlers.{Application, amp_cancel}
use libamp.Packets.{process_full_packet}
use libamp.Packets.Steady.{IsSteady}
use libamp.Packets.Answers.{Without, answer_calls_back, cancel_outcome}
use libamp.Connection.{
  Proto, Consumed, new_parser, amp_new_proto, amp_free_proto, amp_consume_bytes, consume_loop,
}
use libamp.Connection.Life.{Outcome, free_proto_memory}
use libamp.Connection.New.{new_proto-Outcome}
use libamp.Connection.Machine.{conn_run}
use libamp.Connection.Refine.{ConnAgrees}
use libamp.Connection.Loop.{consume_bytes_refines}
use libamp.Connection.Chunks.{SameOutcome, consume_chunks}
use libamp.Connection.Returns.{conn_run-Ends, consume_bytes_returns}
use libamp.Tests.CallTests.{new_peer}
use libamp.Tests.Samples.{plenty, box_program, answer_bytes}

-- Handlers that count their calls in the application's data.
abbrev pub counting : Application ℕ ℕ ℕ
counting = record {
  output = record {
    log = some (λ text n. n + 1);
    write = some (λ buf size peer m. (pos 0, record peer { app = peer.app + 10 }, m));
  };
  respond = λ f arg request peer m. (record peer { app = peer.app + 100 }, m);
  call_back = λ f arg result peer m. (record peer { app = peer.app + 1000 }, m);
}

pub counting-IsSteady : IsSteady counting
counting-IsSteady = record {
  write =
      ((λ buf size peer m. (pos 0, record peer { app = peer.app + 10 }, m)), refl, λ b n p m. refl);
  respond = λ f arg request peer m. refl;
  call_back = λ f arg result peer m. refl;
}

pub plenty-IsPlenty : IsPlenty plenty
plenty-IsPlenty n = refl

abbrev pub waiting_callback : Callback ℕ ℕ
waiting_callback = record { ask_key = 0; func = 7; arg = 8 }

abbrev pub waiting_requests : Table ℕ (Callback ℕ ℕ)
waiting_requests = (table_put callback_key (empty_table 127) 1 waiting_callback plenty).1

pub waiting_requests-IsTable : IsTable callback_key waiting_requests
waiting_requests-IsTable =
    put-IsTable callback_key (empty_table 127) 1 waiting_callback plenty
      (empty_table-IsTable callback_key 127 (omega arith))

-- A request with the key 1 waits.
abbrev pub waiting_peer : Peer ℕ ℕ ℕ
waiting_peer = record new_peer { last_ask_key = 1; outstanding_requests = waiting_requests }

abbrev pub waiting_proto : Proto ℕ ℕ ℕ
waiting_proto = record { parser = new_parser; box = some empty_box; peer = waiting_peer }

pub at_start : Represents new_parser start
at_start = (refl, refl, refl, (refl, refl), refl)

unfoldable pub connection_program : Unit {0}
unfolding box_program empty_table table_put table_get buftoll digits_loop cutoff cutlim too_big
    add_digit ◌-ℤ◌ ◌+ℤ◌ ◌*ℤ◌ amp_get_uint amp_num_keys amp_parse_box parse_loop round key_len_round
    key_data_round val_len_round val_data_round store_pair memcpy_at consume_loop amp_consume_bytes
connection_program = tt

consume_bytes_refines_example :
    (r : Consumed ℕ ℕ ℕ) × (amp_consume_bytes counting waiting_proto plenty answer_bytes ≡ some r)
    × ConnAgrees r (conn_run counting start empty_box waiting_peer plenty answer_bytes)
consume_bytes_refines_example =
    consume_bytes_refines counting waiting_proto plenty answer_bytes start empty_box at_start refl
      (omega arith)
      (conn_run-Ends counting counting-IsSteady start empty_box waiting_peer plenty answer_bytes
        plenty-IsPlenty)

consume_bytes_returns_example :
    (r : Consumed ℕ ℕ ℕ) × (amp_consume_bytes counting waiting_proto plenty answer_bytes ≡ some r)
    × ConnAgrees r (conn_run counting start empty_box waiting_peer plenty answer_bytes)
consume_bytes_returns_example =
    consume_bytes_returns counting counting-IsSteady waiting_proto plenty answer_bytes start
      empty_box at_start refl (omega arith) plenty-IsPlenty

abbrev first_bytes : Bytes
first_bytes = 0 ∷ 7 ∷ b'_' ∷ []

abbrev other_bytes : Bytes
other_bytes = codes "answer" ++ 0 ∷ 1 ∷ b'1' ∷ 0 ∷ 0 ∷ []

abbrev after_first : Consumed ℕ ℕ ℕ
after_first = record {
  code = 0;
  proto = record waiting_proto {
    parser = record new_parser {
      state = key_data_read;
      key_len = pos 7;
      key_data = b'_' ∷ [];
      key_data_fetched = 1;
    };
  };
  memory = plenty;
}

consume_chunks_example :
    (second whole : Consumed ℕ ℕ ℕ) × (amp_consume_bytes counting after_first.proto plenty
        other_bytes
      ≡ some second)
    × (amp_consume_bytes counting waiting_proto plenty (first_bytes ++ other_bytes) ≡ some whole)
    × SameOutcome second whole
consume_chunks_example =
    consume_chunks counting waiting_proto plenty first_bytes other_bytes start empty_box after_first
      at_start refl (omega arith) (omega arith)
      (conn_run-Ends counting counting-IsSteady start empty_box waiting_peer plenty
        (first_bytes ++ other_bytes) plenty-IsPlenty)
      (unfold connection_program in refl) refl

abbrev answer_box : Box
answer_box = (put_buf empty_box answer (codes "1") (pos 1) plenty).1

answer_calls_back_example :
    (peer' : Peer ℕ ℕ ℕ) × (m' : Memory) × Without waiting_peer 1 peer'
    × (process_full_packet counting waiting_peer answer_box plenty ≡ (
        let response = success (record { args = answer_box; answer_key = 1 }) in
        let (peer'', m'') = counting.call_back 7 8 response peer' m' in
        some (pos 0, none, peer'', free_callback (record waiting_callback { ask_key = 0 }) m'')))
answer_calls_back_example =
    answer_calls_back counting waiting_peer answer_box plenty 1 waiting_callback
      waiting_requests-IsTable plenty-IsPlenty (unfold connection_program in omega arith)
      (unfold connection_program in refl) (unfold connection_program in refl)
      (unfold connection_program in refl) (unfold connection_program in refl)

cancel_outcome_example :
    ((cb : Callback ℕ ℕ) × (peer' : Peer ℕ ℕ ℕ) × (m' : Memory) × (outstanding waiting_peer
          (to_unsigned (pos 1))
        ≡ some cb)
      × Without waiting_peer (to_unsigned (pos 1)) peer'
      × (amp_cancel counting waiting_peer (pos 1) plenty ≡ (
          let (peer'', m'') = counting.call_back cb.func cb.arg cancelled peer' m' in
          (0, peer'', free_callback cb m''))))
    ⊎ ((outstanding waiting_peer (to_unsigned (pos 1)) ≡ none)
        × ((amp_cancel counting waiting_peer (pos 1) plenty).0 ≡ no_such_ask_key)
        × ((j : ℕ)
            → outstanding (amp_cancel counting waiting_peer (pos 1) plenty).1 j
              ≡ outstanding waiting_peer j)
        × ((amp_cancel counting waiting_peer (pos 1) plenty).1.app ≡ waiting_peer.app)
        × ((amp_cancel counting waiting_peer (pos 1) plenty).2 ≡ plenty))
cancel_outcome_example =
    cancel_outcome counting waiting_peer (pos 1) plenty waiting_requests-IsTable plenty-IsPlenty

new_proto-Outcome_example : Outcome {F = ℕ} {A = ℕ} {S = ℕ} 0 plenty (amp_new_proto 0 plenty)
new_proto-Outcome_example = new_proto-Outcome ℕ ℕ 0 plenty

free_proto_memory_example : (amp_free_proto waiting_proto plenty).frees ≡ (
    plenty.frees
    + 2 * (empty_box.length + waiting_requests.length + (new_peer.responders).length)
    + 4)
free_proto_memory_example =
    free_proto_memory waiting_proto empty_box plenty refl empty_box-IsValid waiting_requests-IsTable
      (empty_table-IsTable responder_key 127 (omega arith))
