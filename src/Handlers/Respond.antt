-- ===== src/Handlers/Respond.antt =====
-- What amp_respond (amp.c) writes, with an allocator that never fails.
use libamp.Common.{◌≤◌, ◌≡◌, refl, Option, some, take, length}
use libamp.Common.Int.{ℤ, pos}
use libamp.CString.{Bytes}
use libamp.Memory.{Memory}
use libamp.Memory.Plenty.{IsPlenty, IsPlenty-after}
use libamp.Errors.{ok}
use libamp.Box.{Box, put_buf}
use libamp.Box.Octets.{IsByteString}
use libamp.Box.Plenty.{found_serialized}
use libamp.Box.Stored.{IsGood, IsStored, put_prefix-IsStored}
use libamp.Box.Serialize.{amp_serialize_box}
use libamp.Types.{amp_put_bytes}
use libamp.Messages.{Chunk, Request, answer}
use libamp.Messages.Steady.{serialize_steady}
use libamp.Calls.{Peer, WriteHandler, Output, do_write}
use libamp.Calls.Written.{answer-IsKey}
use libamp.Handlers.{amp_respond}

module _ {F A S : Type 0} where
  -- What amp_respond leaves if the packet was written.
  abbrev pub responded :
      WriteHandler F A S
      → Bytes
      → Peer F A S
      → Memory
      → Box
      → Option (ℤ × Box × Peer F A S × Memory)
  responded w bytes peer m packet =
      let (ret, peer', m') = w bytes (length bytes) peer m in some (ret, packet, peer', m')

  -- With a write handler and an allocator that never fails, amp_respond to a request that has an ask
  -- key of at most 65535 bytes puts that key in the box under _answer, beside what the box holds, and
  -- hands the bytes of that packet to the write handler, once. It returns what the handler returns.
  pub respond_written :
      (w : WriteHandler F A S) (out : Output F A S) (peer : Peer F A S) (request : Request)
      (args : Box) (m : Memory) (key : Chunk)
      → out.write ≡ some w
      → request.ask_key ≡ some key
      → IsByteString key.value
      → key.size ≤ length key.value
      → key.size ≤ 65535
      → IsGood args
      → IsPlenty m
      → (packet : Box) × (bytes : Bytes) × (m1 m2 : Memory) × IsStored args answer
          (take key.size key.value)
          packet
        × IsPlenty m2
        × ((amp_serialize_box packet m1).0 ≡ ok (bytes, length bytes))
        × (amp_respond out peer request args m ≡ responded w bytes peer m2 packet)
  unfolding amp_respond do_write amp_put_bytes
  respond_written w out peer request args m key set asked octets fits short good plenty =
      let put = put_buf args answer key.value (pos key.size) m in
      let (done, stored, plenty1) =
        put_prefix-IsStored args answer key.value key.size m good answer-IsKey octets fits short
          plenty in
      let (bytes, written) =
        found_serialized put.1 answer (take key.size key.value, length (take key.size key.value))
          put.2 stored.good.valid plenty1 stored.found in
      let m2 = (amp_serialize_box put.1 put.2).1 in
      (
        put.1,
        bytes,
        put.2,
        m2,
        stored,
        IsPlenty-after put.2 m2 (serialize_steady put.1 put.2) plenty1,
        written,
        rw (asked, done, written, set, amp_respond, do_write) refl,
      )
