-- ===== src/Parser.antt =====
-- amp_parse_box (amp.c) and the parsing fields of struct AMP_Proto (amp_internal.h).
pub mod Stage
pub mod Run
pub mod Represents
pub mod Refine
pub mod Wire
pub mod RoundTrip
pub mod Chunks
use libamp.Common.{
  ℕ, zero, suc, ◌+◌, ◌*◌, ◌≡◌, Bool, true, false, ◌&&◌, List, [], ◌∷◌, ◌++◌, Option, none, some,
  take, drop, length, ltb, leb, ◌==◌, if◌then◌else◌,
}
use Prim.Native.Nat.{bit_or}
use libamp.Common.Int.{ℤ, pos, negsuc, pos_part, ◌-ℤ◌}
use libamp.CString.{Bytes}
use libamp.Memory.{Memory}
use libamp.Errors.{bad_key_size}
use libamp.Box.{Box, put_buf}

-- enum amp_protocol_state
pub data ProtocolState : Type 0 where
  key_len_read key_data_read val_len_read val_data_read : ProtocolState

-- The arrays are the bytes written to them so far, from the first one on.
pub record Parser : Type 0 where
  pub state : ProtocolState
  pub error : ℕ
  pub key_len : ℤ
  pub key_data : Bytes
  pub key_data_fetched : ℕ
  pub val_len : ℤ
  pub val_data : Bytes
  pub val_data_fetched : ℕ

-- The sizes of the arrays `key_data` and `val_data`.
abbrev pub key_data_size : ℕ
key_data_size = 257

abbrev pub val_data_size : ℕ
val_data_size = 65536

-- memcpy to offset `off` of an array of `size` bytes. A write past the end of the array, or past
-- the part of it that has been written, is a fault.
unfoldable pub memcpy_at : ℕ → Bytes → ℕ → Bytes → Option Bytes
memcpy_at size dst off src =
    if leb (off + length src) size && leb off (length dst)
    then some (take off dst ++ (src ++ drop (off + length src) dst))
    else none

-- One round of the loop: `*bytesConsumed`, with the returned value, or the bytes that the round
-- consumed. A fault is undefined behaviour.
pub data Round : Type 0 where
  next : Parser → Option Box → Memory → ℕ → Round
  stop : Parser → Option Box → Memory → ℕ → Bool → Round
  fault : Round

-- case KEY_LEN_READ
unfoldable pub key_len_round : Parser → Option Box → Memory → ℕ → Round
key_len_round p box m c = elim p.key_len [
  | negsuc _ ↦
      if c == 0
      then next (record p { key_len = pos 0 }) box m 1
      else stop (record p { error = bad_key_size }) box m 1 false
  | pos _ ↦
      if c == 0
      then stop (record p { key_len = negsuc 0; state = key_len_read }) box m 1 true
      else next (record p { key_len = pos c; state = key_data_read }) box m 1
]

-- case KEY_DATA_READ. A negative `bytes_needed` would be the length of a memcpy.
unfoldable pub key_data_round : Parser → Option Box → Memory → Bytes → Round
key_data_round p box m buf = elim (p.key_len -ℤ pos p.key_data_fetched) [
  | negsuc _ ↦ fault
  | pos bytes_needed ↦
      if ltb (length buf) bytes_needed
      then elim (memcpy_at key_data_size p.key_data p.key_data_fetched buf) [
        | none ↦ fault
        | some d ↦
            next (record p { key_data = d; key_data_fetched = p.key_data_fetched + length buf }) box
              m (length buf)
      ]
      else elim (memcpy_at key_data_size p.key_data p.key_data_fetched (take bytes_needed buf)) [
        | none ↦ fault
        | some d ↦ elim (memcpy_at key_data_size d (p.key_data_fetched + bytes_needed) (0 ∷ [])) [
          | none ↦ fault
          | some d' ↦
              next
                (record p {
                  key_data = d';
                  key_data_fetched = p.key_data_fetched + bytes_needed;
                  state = val_len_read;
                })
                box m bytes_needed
        ]
      ]
]

-- case VAL_LEN_READ
unfoldable pub val_len_round : Parser → Option Box → Memory → ℕ → Round
val_len_round p box m c = elim p.val_len [
  | negsuc _ ↦ next (record p { val_len = pos (c * 256) }) box m 1
  | pos n ↦ next (record p { val_len = pos (bit_or n c); state = val_data_read }) box m 1
]

-- The end of case VAL_DATA_READ: the pair is stored, and the parser reset. amp_put_bytes is a call
-- of _amp_put_buf.
unfoldable pub store_pair : Parser → Option Box → Memory → ℕ → Round
store_pair p none m n = fault
store_pair p (some box) m n =
    let (e, box', m') = put_buf box p.key_data p.val_data p.val_len m in
    if e == 0
    then next
        (record p {
          error = 0;
          key_len = negsuc 0;
          val_len = negsuc 0;
          key_data_fetched = 0;
          val_data_fetched = 0;
          state = key_len_read;
        })
        (some box') m' n
    else stop (record p { error = e }) (some box') m' n false

-- case VAL_DATA_READ
unfoldable pub val_data_round : Parser → Option Box → Memory → Bytes → Round
val_data_round p box m buf = elim (p.val_len -ℤ pos p.val_data_fetched) [
  | negsuc _ ↦ fault
  | pos bytes_needed ↦
      if ltb (length buf) bytes_needed
      then elim (memcpy_at val_data_size p.val_data p.val_data_fetched buf) [
        | none ↦ fault
        | some d ↦
            next (record p { val_data = d; val_data_fetched = p.val_data_fetched + length buf }) box
              m (length buf)
      ]
      else elim (memcpy_at val_data_size p.val_data p.val_data_fetched (take bytes_needed buf)) [
        | none ↦ fault
        | some d ↦
            store_pair
              (record p { val_data = d; val_data_fetched = p.val_data_fetched + bytes_needed }) box
              m bytes_needed
      ]
]

-- The switch, at the byte `c` with the bytes `s` behind it.
unfoldable pub round : ProtocolState → Parser → Option Box → Memory → ℕ → Bytes → Round
round key_len_read p box m c s = key_len_round p box m c
round key_data_read p box m c s = key_data_round p box m (c ∷ s)
round val_len_read p box m c s = val_len_round p box m c
round val_data_read p box m c s = val_data_round p box m (c ∷ s)

-- What a call leaves behind: `consumed` is `*bytesConsumed`, `full` the returned value.
pub record Parsed : Type 0 where
  pub parser : Parser
  pub box : Option Box
  pub memory : Memory
  pub consumed : ℕ
  pub full : Bool

-- The loop, on fuel; `none` is a fault, or the end of the fuel.
unfoldable pub parse_loop : ℕ → Parser → Option Box → Memory → Bytes → ℕ → Option Parsed
parse_loop zero p box m buf idx = none
parse_loop (suc fuel) p box m [] idx =
    some (record { parser = p; box = box; memory = m; consumed = idx; full = false })
parse_loop (suc fuel) p box m (c ∷ s) idx = elim (round p.state p box m c s) [
  | next p' box' m' n ↦ parse_loop fuel p' box' m' (drop n (c ∷ s)) (idx + n)
  | stop p' box' m' n full ↦
      some (record { parser = p'; box = box'; memory = m'; consumed = idx + n; full = full })
  | fault ↦ none
]

-- A round that consumes no byte is followed by one that does, so two rounds a byte are enough.
unfoldable pub amp_parse_box : Parser → Option Box → Memory → Bytes → Option Parsed
amp_parse_box p box m buf = parse_loop (2 * length buf + 2) p box m buf 0
