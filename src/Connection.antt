-- ===== src/Connection.antt =====
-- The protocol object (amp.c): its making, resetting and freeing, and amp_consume_bytes, which takes
-- the bytes of a connection.
pub mod Machine
pub mod Refine
pub mod Loop
pub mod Chunks
pub mod Returns
pub mod Life
pub mod New
pub mod Maps
pub mod Operations
pub mod Reachable
use libamp.Common.{
  ℕ, zero, suc, ◌+◌, Bool, true, false, List, [], ◌∷◌, Option, none, some, length, drop, ◌==◌,
  if◌then◌else◌,
}
use libamp.Common.Int.{negsuc, to_unsigned}
use libamp.Memory.{Memory, malloc, release}
use libamp.CString.{Bytes}
use libamp.Errors.{proto_error}
use libamp.Box.{Box, amp_new_box, amp_free_box}
use libamp.Parser.{Parser, Parsed, key_len_read, amp_parse_box}
use libamp.Dispatch.{new_callback_map, new_responder_map, free_callback_map, free_responder_map}
use libamp.Calls.{Peer}
use libamp.Handlers.{Application}
use libamp.Packets.{process_full_packet}

-- struct AMP_Proto. Its `dispatch_box` is always _amp_process_full_packet.
pub record Proto (F A S : Type 0) : Type 0 where
  pub parser : Parser
  pub box : Option Box
  pub peer : Peer F A S

-- The fields that amp_new_proto sets; nothing has been written to the arrays.
abbrev pub new_parser : Parser
new_parser = record {
  state = key_len_read;
  error = 0;
  key_len = negsuc 0;
  key_data = [];
  key_data_fetched = 0;
  val_len = negsuc 0;
  val_data = [];
  val_data_fetched = 0;
}

-- What amp_consume_bytes returns, and what it leaves.
pub record Consumed (F A S : Type 0) : Type 0 where
  pub code : ℕ
  pub proto : Proto F A S
  pub memory : Memory

module _ {F A S : Type 0} where
  -- A protocol object or NULL; `app` is the application's own data. `none` stands for a read behind
  -- the array of primes in Table_new.
  unfoldable pub amp_new_proto : S → Memory → Option (Option (Proto F A S) × Memory)
  amp_new_proto app m =
      let (got, m1) = malloc m in
      if got
      then (let (new, m2) = amp_new_box m1 in
          elim new [
            | none ↦ some (none, release 1 m2)
            | some box ↦ elim (new_callback_map {F = F} {A = A} m2) [
              | none ↦ none
              | some (none, m3) ↦ some (none, amp_free_box (some box) (release 1 m3))
              | some (some outstanding_requests, m3) ↦ elim (new_responder_map {F = F} {A = A} m3) [
                | none ↦ none
                | some (none, m4) ↦ some (
                  none,
                  free_callback_map outstanding_requests (amp_free_box (some box) (release 1 m4)),
                )
                | some (some responders, m4) ↦ some (
                  some (record {
                    parser = new_parser;
                    box = some box;
                    peer = record {
                      last_ask_key = 0;
                      outstanding_requests = outstanding_requests;
                      responders = responders;
                      app = app;
                    };
                  }),
                  m4,
                )
              ]
            ]
          ])
      else some (none, m1)

  unfoldable pub amp_reset_proto : Proto F A S → Memory → Proto F A S × Memory
  unfolding amp_free_box amp_new_box
  amp_reset_proto proto m =
      let (new, m1) = amp_new_box (amp_free_box proto.box m) in
      (
        record proto {
          parser = record (proto.parser) {
            state = key_len_read;
            key_len = negsuc 0;
            key_data_fetched = 0;
            val_len = negsuc 0;
            val_data_fetched = 0;
            error = 0;
          };
          box = new;
        },
        m1,
      )

  unfoldable pub amp_free_proto : Proto F A S → Memory → Memory
  unfolding release amp_free_box free_callback_map free_responder_map
  amp_free_proto proto m = release 1 (
      free_responder_map proto.peer.responders
        (free_callback_map proto.peer.outstanding_requests (amp_free_box proto.box m)))

  -- The full box in `proto->box` is dispatched, and the answer stored in `proto->error`; the `int`
  -- is kept as the bits of it. If it is 0 a new box is begun, or NULL.
  unfoldable pub dispatch_box : Application F A S → Proto F A S → Memory → Option (Consumed F A S)
  dispatch_box app proto m = elim proto.box [
    | none ↦ none
    | some box ↦ elim (process_full_packet app proto.peer box m) [
      | none ↦ none
      | some (ret, kept, peer1, m1) ↦
          let e = to_unsigned ret in
          let parser1 : Parser = record (proto.parser) { error = e } in
          let (new, m2) = amp_new_box m1 in
          if e == 0
          then some (record {
            code = 0;
            proto = record { parser = parser1; box = new; peer = peer1 };
            memory = m2;
          })
          else some (record {
            code = e;
            proto = record { parser = parser1; box = kept; peer = peer1 };
            memory = m1;
          })
    ]
  ]

  -- The loop, on fuel; `none` is undefined behaviour, or the end of the fuel.
  unfoldable pub consume_loop :
      ℕ → Application F A S → Proto F A S → Memory → Bytes → Option (Consumed F A S)
  consume_loop zero app proto m buf = none
  consume_loop (suc fuel) app proto m [] = some (record { code = 0; proto = proto; memory = m })
  consume_loop (suc fuel) app proto m (c ∷ s) =
      elim (amp_parse_box proto.parser proto.box m (c ∷ s)) [
        | none ↦ none
        | some r ↦
            let proto1 : Proto F A S = record proto { parser = r.parser; box = r.box } in
            let rest = drop r.consumed (c ∷ s) in
            if r.full
            then elim (dispatch_box app proto1 r.memory) [
              | none ↦ none
              | some d ↦
                  let go = consume_loop fuel app d.proto d.memory rest in
                  if d.code == 0 then go else some d
            ]
            else (let go = consume_loop fuel app proto1 r.memory rest in
                if r.parser.error == 0
                then go
                else some (record { code = r.parser.error; proto = proto1; memory = r.memory }))
      ]

  -- Every round consumes a byte.
  unfoldable pub amp_consume_bytes :
      Application F A S → Proto F A S → Memory → Bytes → Option (Consumed F A S)
  amp_consume_bytes app proto m buf =
      let go = consume_loop (length buf + 1) app proto m buf in
      if proto.parser.error == 0
      then go
      else some (record { code = proto_error; proto = proto; memory = m })
