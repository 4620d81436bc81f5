-- ===== src/Rpc/Packet.antt =====
-- A box that one side serializes (box.c) is the packet that the other side handles (amp.c).
use libamp.Common.{
  ◌<◌, ◌≡◌, refl, sym, ap, ◌∙◌, arith, subst, true, [], ◌∷◌, List, Option, some, length, drop_all,
  All, ◌==◌,
}
use libamp.Common.Int.{ℤ, pos, to_unsigned}
use libamp.CString.{Bytes}
use libamp.CString.Laws.{box_key}
use libamp.Memory.{Memory}
use libamp.Memory.Plenty.{IsPlenty}
use libamp.Hashing.Buckets.{flatten, flatten-IsDistinct, All-flatten}
use libamp.Errors.{ok}
use libamp.Box.{Box, KeyValue, key_of, empty_box, put_buf, get_buf, amp_new_box}
use libamp.Box.Valid.{IsEntry, IsValid, empty_box-IsValid}
use libamp.Box.Octets.{IsBytes, HasBytes}
use libamp.Box.Put.{put_buf-IsValid, put_buf_succeeds}
use libamp.Box.Plenty.{new_box_got}
use libamp.Box.Serialize.{amp_serialize_box, write_loop}
use libamp.Box.Serialize.Length.{serialize_whole}
use libamp.Parser.Stage.{start, complete, run}
use libamp.Parser.Represents.{Represents}
use libamp.Parser.Wire.{put_all, run-write_loop, put_all-lookup}
use libamp.Parser.RoundTrip.{all_stored, write_loop-bytes, get_buf-entries}
use libamp.Calls.{Peer}
use libamp.Handlers.{Application}
use libamp.Packets.{process_full_packet}
use libamp.Packets.Steady.{IsSteady}
use libamp.Connection.{Proto, Consumed, amp_consume_bytes}
use libamp.Connection.Machine.{
  Conn, waiting, stopped, starved, broken, dispatched, conn_run, resume_conn, segment,
  conn_run-segment,
}
use libamp.Connection.Refine.{ConnAgrees}
use libamp.Connection.Returns.{consume_bytes_returns}

put_all-IsValid :
    (es : List KeyValue) (box : Box) (m : Memory)
    → IsValid box
    → All IsEntry es
    → IsValid (put_all es box m).0 × ((put_all es box m).1.succeeds ≡ m.succeeds)
unfolding put_all
put_all-IsValid [] box m v h = (v, refl)
put_all-IsValid (e ∷ es) box m v h =
    let put = put_buf box e.key e.value (pos (length e.value)) m in
    let (valid, steady) =
      put_all-IsValid es put.1 put.2
        (put_buf-IsValid box e.key e.value (pos (length e.value)) m v (omega arith)) h.1 in
    (valid, steady ∙ put_buf_succeeds box e.key e.value (length e.value) m)

-- The parser's copy of a box.
pub record IsCopy (box : Box) (m : Memory) (copy : Box) (m' : Memory) : Type 0 where
  pub valid : IsValid copy
  pub same : (j : Bytes) → get_buf copy j ≡ get_buf box j
  pub steady : m'.succeeds ≡ m.succeeds

-- The bytes of a box are run through as one packet.
packet_run :
    (box : Box) (m0 m : Memory) (bytes : Bytes)
    → IsValid box
    → HasBytes box
    → IsPlenty m
    → (amp_serialize_box box m0).0 ≡ ok (bytes, length bytes)
    → (copy : Box) × (m' : Memory) × IsCopy box m copy m'
      × (run start empty_box m bytes ≡ complete copy m' (length bytes))
      × All (λ c. c < 256) bytes
packet_run box m0 m bytes v b plenty written =
    let es = flatten box.buckets in
    let entries = All-flatten IsEntry box.buckets v.entries in
    let stored = all_stored es empty_box m plenty entries in
    let wrote : bytes ≡ write_loop es = ground (arith, serialize_whole box m0 v, written) in
    let (valid, steady) = put_all-IsValid es empty_box m empty_box-IsValid entries in
    let lookup =
      put_all-lookup es empty_box m empty_box-IsValid entries
        (flatten-IsDistinct box_key key_of (length box.buckets) 0 box.buckets v.sound) stored in
    (
      (put_all es empty_box m).0,
      (put_all es empty_box m).1,
      record {
        valid = valid;
        same = λ j. lookup j ∙ sym (get_buf-entries box v j);
        steady = steady;
      },
      rw wrote (run-write_loop es empty_box m entries stored),
      rw wrote (write_loop-bytes es entries (All-flatten IsBytes box.buckets b)),
    )

module _ {F A S : Type 0} where
  resume-nil : (app : Application F A S) (x : Conn F A S) → resume_conn app x [] ≡ x
  unfolding resume_conn conn_run
  resume-nil app (waiting st box peer m) = refl
  resume-nil app (stopped e kept peer m) = refl
  resume-nil app (starved peer m) = refl
  resume-nil app broken = refl

  -- What a protocol object is after a packet was handled with the outcome `peer` and `m`: at the
  -- start of the next box, with no error.
  pub record IsReady (r : Consumed F A S) (peer : Peer F A S) (m : Memory) : Type 0 where
    pub code : r.code ≡ 0
    pub begun : Represents r.proto.parser start
    pub empty : r.proto.box ≡ some empty_box
    pub peer_left : r.proto.peer ≡ peer
    pub memory_left : r.memory ≡ (amp_new_box m).1

  ready :
      (r : Consumed F A S) (x : Conn F A S) (ret : ℤ) (kept : Option Box) (peer : Peer F A S)
      (m : Memory)
      → IsPlenty m
      → to_unsigned ret ≡ 0
      → ConnAgrees r x
      → x ≡ dispatched (some (ret, kept, peer, m))
      → IsReady r peer m
  ready r x ret kept peer m plenty zero agrees same =
      let clean : (to_unsigned ret == 0) ≡ true = ground (arith, zero) in
      let made = new_box_got m plenty in
      let round : x ≡ waiting start empty_box peer (amp_new_box m).1 =
        same ∙ rw (clean, made) refl in
      let (code, begun, empty, left, memory) = subst (ConnAgrees r) round agrees in
      record { code = code; begun = begun; empty = empty; peer_left = left; memory_left = memory }

  segment_whole :
      (app : Application F A S) (peer : Peer F A S) (copy : Box) (m : Memory) (bytes : Bytes)
      → segment app peer (complete copy m (length bytes)) bytes
        ≡ dispatched (process_full_packet app peer copy m)
  unfolding segment
  segment_whole app peer copy m bytes =
      rw (drop_all (length bytes) bytes (omega arith))
        (resume-nil app (dispatched (process_full_packet app peer copy m)))

  -- The bytes of a box, given to a protocol object at the start of a box, are handled as one packet,
  -- which is a copy of the box. If that ends well, the object is ready for the next.
  pub packet_delivered :
      (app : Application F A S)
      → IsSteady app
      → (proto : Proto F A S) (box : Box) (m0 m : Memory) (bytes : Bytes)
      → Represents proto.parser start
      → proto.box ≡ some empty_box
      → IsValid box
      → HasBytes box
      → IsPlenty m
      → (amp_serialize_box box m0).0 ≡ ok (bytes, length bytes)
      → (copy : Box) × (m' : Memory) × IsCopy box m copy m'
        × ((ret : ℤ) (kept : Option Box) (peer : Peer F A S) (m'' : Memory)
            → process_full_packet app proto.peer copy m' ≡ some (ret, kept, peer, m'')
            → to_unsigned ret ≡ 0
            → IsPlenty m''
            → (r : Consumed F A S) × (amp_consume_bytes app proto m bytes ≡ some r)
              × IsReady r peer m'')
  packet_delivered app steady proto box m0 m bytes rep held v b plenty written =
      let (copy, m', is_copy, ran, octets) = packet_run box m0 m bytes v b plenty written in
      let (r, went, agrees) =
        consume_bytes_returns app steady proto m bytes start empty_box rep held octets plenty in
      let whole = conn_run-segment app start empty_box proto.peer m bytes in
      (
        copy,
        m',
        is_copy,
        λ ret kept peer m'' handled zero plenty''. (
          r,
          went,
          ready r (conn_run app start empty_box proto.peer m bytes) ret kept peer m'' plenty'' zero
              agrees
              (whole
                ∙ ap (λ x. segment app proto.peer x bytes) ran
                ∙ segment_whole app proto.peer copy m' bytes
                ∙ ap (λ h. dispatched h) handled),
        ),
      )
