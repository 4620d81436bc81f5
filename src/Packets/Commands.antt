-- ===== src/Packets/Commands.antt =====
-- A command reaches its responder, once.
use libamp.Common.{
  ℕ, ◌≡◌, refl, ap, ◌∙◌, arith, true, false, [], ◌∷◌, ◌++◌, Option, none, some, ◌==◌, take, inl,
  inr,
}
use libamp.Common.Int.{pos}
use libamp.CString.{Bytes}
use libamp.Memory.{Memory, malloc}
use libamp.Memory.Plenty.{IsPlenty, IsPlenty-after}
use libamp.Errors.{Result, ok, err, is_ok, Result-cases}
use libamp.Box.{Box, amp_num_keys, amp_has_key, get_buf}
use libamp.Box.Valid.{IsValid, has_key-get_buf}
use libamp.Box.Plenty.{found-length, malloc_got}
use libamp.Types.{amp_get_bytes}
use libamp.Dispatch.{Responder, get_responder}
use libamp.Messages.{
  Chunk, Request, command_key, ask, amp_new_chunk, amp_chunk_copy_buffer, required_chunk,
  optional_chunk, new_request_from_box,
}
use libamp.Messages.Steady.{malloc_steady, required_steady, new_request_steady}
use libamp.Calls.{Peer}
use libamp.Handlers.{Application}
use libamp.Packets.{process_full_packet, handle_command}

-- A copy of `n` bytes.
abbrev pub chunk_of : Bytes × ℕ → Chunk
chunk_of (buf, n) = record { value = take n buf ++ 0 ∷ []; size = n }

abbrev pub optional_chunk_of : Result (Bytes × ℕ) → Option Chunk
optional_chunk_of (ok found) = some (chunk_of found)
optional_chunk_of (err e) = none

-- The request that a box with the command `found` stands for.
abbrev pub request_of : Box → Bytes × ℕ → Request
request_of box found = record {
  command = chunk_of found;
  ask_key = optional_chunk_of (get_buf box ask);
  args = some box;
}

required_found :
    (box : Box) (key : Bytes) (found : Bytes × ℕ) (m : Memory)
    → IsPlenty m
    → get_buf box key ≡ ok found
    → (required_chunk box key m).0 ≡ ok (chunk_of found)
unfolding required_chunk amp_get_bytes amp_chunk_copy_buffer amp_new_chunk malloc
required_found box key found m plenty there = let got = plenty m.calls in ground (arith, there, got)

pub optional_found :
    (box : Box) (key : Bytes) (m : Memory)
    → IsPlenty m
    → IsValid box
    → (optional_chunk box key m).0 ≡ ok (optional_chunk_of (get_buf box key))
unfolding optional_chunk amp_get_bytes amp_chunk_copy_buffer amp_new_chunk malloc
optional_found box key m plenty v =
    let got = plenty m.calls in
    let has = has_key-get_buf box key v in
    elim (Result-cases (get_buf box key)) [
      | inl (found, there) ↦ ground (arith, there, got, has)
      | inr (e, missing) ↦ ground (arith, missing, got, has)
    ]

-- With memory for every block, a box with a command becomes its request.
pub request_made :
    (box : Box) (found : Bytes × ℕ) (m : Memory)
    → IsValid box
    → IsPlenty m
    → get_buf box command_key ≡ ok found
    → (new_request_from_box box m).0 ≡ ok (request_of box found)
unfolding new_request_from_box
request_made box found m v plenty there =
    let m1 = (malloc m).1 in
    let got = malloc_got m plenty in
    let plenty1 = IsPlenty-after m m1 (malloc_steady m) plenty in
    let name = required_found box command_key found m1 plenty1 there in
    let m2 = (required_chunk box command_key m1).1 in
    let plenty2 = IsPlenty-after m1 m2 (required_steady box command_key m1) plenty1 in
    let key = optional_found box ask m2 plenty2 v in ground (arith, got, name, key)

module _ {F A S : Type 0} where
  -- A packet with a _command key is dispatched, well formed, the allocator never fails, and a
  -- responder is registered for the command. Then the responder is called once, with its argument
  -- and the request of the packet: the command, the ask key if the packet has one, and the packet.
  -- Nothing of the object was changed before, and dispatching returns 0 with what the responder
  -- leaves.
  pub command_calls_responder :
      (app : Application F A S) (peer : Peer F A S) (box : Box) (m : Memory) (found : Bytes × ℕ)
      (responder : Responder F A)
      → IsValid box
      → IsPlenty m
      → get_buf box command_key ≡ ok found
      → get_responder peer.responders (chunk_of found).value ≡ some responder
      → (m' : Memory) × (m'.succeeds ≡ m.succeeds)
        × (process_full_packet app peer box m ≡ (
            let (peer', m'') =
              app.respond responder.func responder.arg (request_of box found) peer m' in
            some (pos 0, none, peer', m'')))
  unfolding process_full_packet handle_command amp_num_keys
  command_calls_responder app peer box m found responder v plenty there registered =
      let made = request_made box found m v plenty there in
      let full : (box.length == 0) ≡ false =
        ground (arith, found-length box command_key found v there) in
      let has : amp_has_key box command_key ≡ true =
        has_key-get_buf box command_key v ∙ ap is_ok there in
      (
        (new_request_from_box box m).1,
        new_request_steady box m,
        rw (full, has, made, registered, process_full_packet, handle_command) refl,
      )
