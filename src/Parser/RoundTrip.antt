-- ===== src/Parser/RoundTrip.antt =====
-- What amp_serialize_box (box.c) writes, amp_parse_box (amp.c) reads back.
use libamp.Common.{
  ℕ, ◌+◌, ◌<◌, ◌≡◌, sym, ap, ◌∙◌, arith, true, List, [], ◌∷◌, length, none, some, All, ◌&&◌,
}
use libamp.Common.Int.{pos}
use libamp.CString.{Bytes, strlen}
use libamp.CString.Laws.{box_key, c_str_id}
use libamp.Memory.{Memory}
use libamp.Hashing.Chain.{find}
use libamp.Hashing.Buckets.{flatten, find-flatten, flatten-IsDistinct, All-flatten, All-append}
use libamp.Errors.{ok}
use libamp.Box.{Box, KeyValue, key_of, empty_box, put_buf, get_buf}
use libamp.Box.Octets.{IsBytes}
use libamp.Box.Valid.{IsEntry, IsValid, empty_box-IsValid, get_buf-empty}
use libamp.Box.Put.{good_key, good_size, put_buf_code, put_buf_succeeds}
use libamp.Box.Serialize.{write_pair, write_loop, amp_serialize_box}
use libamp.Box.Serialize.Length.{write_pair_exact, serialize_whole}
use libamp.Parser.{Parser, Parsed, amp_parse_box}
use libamp.Parser.Stage.{start}
use libamp.Parser.Represents.{Represents}
use libamp.Parser.Refine.{parse_box_refines}
use libamp.Parser.Wire.{AllStored, put_all, run-write_loop, put_all-lookup}

entry_good : (e : KeyValue) → IsEntry e → good_key e.key && good_size (pos (length e.value)) ≡ true
unfolding strlen
entry_good e v = let size = ap length (c_str_id e.key v.no_nul) in ground (arith, size)

-- With memory for every block, well-formed entries are all put in.
pub all_stored :
    (es : List KeyValue) (box : Box) (m : Memory)
    → ((n : ℕ) → m.succeeds n ≡ true)
    → All IsEntry es
    → AllStored es box m
all_stored [] box m plenty v = tt
all_stored (e ∷ es) box m plenty v =
    let put = put_buf box e.key e.value (pos (length e.value)) m in
    (
      put_buf_code box e.key e.value (pos (length e.value)) m
          ∙ ground (arith, entry_good e v.0, plenty m.calls, plenty (m.calls + 1)),
      all_stored es put.1 put.2
          (λ n. ap (λ f. f n) (put_buf_succeeds box e.key e.value (length e.value) m) ∙ plenty n)
          v.1,
    )

pub write_loop-bytes :
    (es : List KeyValue) → All IsEntry es → All IsBytes es → All (λ c. c < 256) (write_loop es)
unfolding write_loop
write_loop-bytes [] v b = omega arith
write_loop-bytes (e ∷ es) v b =
    All-append (λ c. c < 256) (write_pair e) (write_loop es) (pair_bytes e v.0 b.0)
      (write_loop-bytes es v.1 b.1)
  where
    pair_bytes : (e : KeyValue) → IsEntry e → IsBytes e → All (λ c. c < 256) (write_pair e)
    pair_bytes e v b = rw (write_pair_exact e v) (
      omega arith,
      (
        omega (arith, v.key_size, v.key_max),
        All-append (λ c. c < 256) e.key _ b.0
            (omega (arith, v.value_size, v.value_max), (omega arith, b.1)),
      ),
    )

written_bytes :
    (box : Box) (m m' : Memory) (bytes : Bytes) (size : ℕ)
    → IsValid box
    → amp_serialize_box box m ≡ (ok (bytes, size), m')
    → (bytes ≡ write_loop (flatten box.buckets))
      × (size ≡ length (write_loop (flatten box.buckets)))
written_bytes box m m' bytes size v written =
    ground (arith, serialize_whole box m v, ap (λ r. r.0) written)

-- A lookup is a search through all the entries.
pub get_buf-entries :
    (box : Box) (v : IsValid box) (j : Bytes)
    → get_buf box j ≡ elim (find box_key key_of j (flatten box.buckets)) [
      | some e ↦ ok (e.value, e.value_size)
      | none ↦ get_buf empty_box j
    ]
unfolding get_buf
get_buf-entries box v j =
    ground (arith, find-flatten box_key key_of box.buckets j v.sound, get_buf-empty j)

-- Let a well-formed box of bytes be serialized, with success, and let malloc not fail after that.
-- Then amp_parse_box, at the start of a box, reads from these bytes a full box into a new one: it
-- returns 1, consumes all of them, and every lookup in the new box is as in the serialized one.
pub parse-serialize :
    (box : Box) (m m' : Memory) (p : Parser) (bytes : Bytes) (size : ℕ)
    → IsValid box
    → All (All IsBytes) box.buckets
    → ((n : ℕ) → m'.succeeds n ≡ true)
    → Represents p start
    → amp_serialize_box box m ≡ (ok (bytes, size), m')
    → (r : Parsed) × (copy : Box) × (amp_parse_box p (some empty_box) m' bytes ≡ some r)
      × (r.full ≡ true)
      × (r.consumed ≡ size)
      × (r.box ≡ some copy)
      × Represents r.parser start
      × ((j : Bytes) → get_buf copy j ≡ get_buf box j)
parse-serialize box m m' p bytes size v b plenty rep written =
    let es = flatten box.buckets in
    let entries = All-flatten IsEntry box.buckets v.entries in
    let stored = all_stored es empty_box m' plenty entries in
    let (wrote, sized) = written_bytes box m m' bytes size v written in
    let (r, ran, agrees) =
      parse_box_refines p empty_box m' (write_loop es) start rep
        (write_loop-bytes es entries (All-flatten IsBytes box.buckets b)) in
    let (rep', in_box, mem, full, consumed) =
      rw (run-write_loop es empty_box m' entries stored) at agrees in
    (
      r,
      (put_all es empty_box m').0,
      rw wrote ran,
      full,
      consumed ∙ sym sized,
      in_box,
      rep',
      λ j.
          put_all-lookup es empty_box m' empty_box-IsValid entries
            (flatten-IsDistinct box_key key_of (length box.buckets) 0 box.buckets v.sound) stored j
          ∙ sym (get_buf-entries box v j),
    )
