-- ===== src/Box.antt =====
-- AMP_Box (box.c): the hash table of key/value pairs that an AMP packet is.
pub mod Put
pub mod Valid
pub mod Delete
pub mod Congr
pub mod Octets
pub mod Plenty
pub mod Stored
pub mod Serialize
use mathlib.Core.Path.{fun_ext}
use libamp.Common.{
  ℕ, suc, ◌+◌, ◌-◌, ◌*◌, ◌%◌, ◌^◌, ◌≡◌, Bool, true, false, ◌||◌, ◌&&◌, List, [], ◌∷◌, Option, none,
  some, length, take, replicate, ltb, ◌==◌, if◌then◌else◌,
}
use libamp.Common.Int.{ℤ, pos, negsuc, pos_part, ltb_ℤ}
use libamp.Memory.{Memory, malloc, release}
use libamp.CString.{Bytes, c_str, strlen, str_eq, bytes_eq}
use libamp.CString.Laws.{box_key}
use libamp.Hashing.Chain.{find}
use libamp.Hashing.Free.{free_buckets, free_all_lem}
use libamp.Hashing.Buckets.{bucket, view, flatten}
use libamp.Hashing.Writes.{link, rewrite, cut}
use libamp.Errors.{bad_key_size, bad_val_size, box_empty, key_not_found, enomem, Result, ok, err}

-- struct amp_key_value: the key as it was copied, and the value with its cached sizes.
pub record KeyValue : Type 0 where
  pub key : Bytes
  pub key_size : ℕ
  pub value : Bytes
  pub value_size : ℕ

-- struct AMP_Box. `box->size` is the length of the bucket array; `cmp` and `hash` are always
-- cmp_string and hash_string.
pub record Box : Type 0 where
  pub buckets : List (List KeyValue)
  pub length : ℕ
  pub timestamp : ℕ

abbrev pub key_of : KeyValue → Bytes
key_of e = e.key

abbrev pub max_key_length : ℕ
max_key_length = 0xff

abbrev pub max_value_length : ℕ
max_value_length = 0xffff

-- The 127 empty buckets of amp_new_box.
unfoldable pub empty_box : Box
empty_box = record { buckets = replicate 127 []; length = 0; timestamp = 0 }

unfoldable pub amp_new_box : Memory → Option Box × Memory
unfolding malloc
amp_new_box m = let (got, m') = malloc m in if got then (some empty_box, m') else (none, m')

-- The loops over the chains, and the box itself. NULL is accepted.
unfoldable pub amp_free_box : Option Box → Memory → Memory
unfolding release
amp_free_box none m = m
amp_free_box (some box) m = release 1 (free_buckets box.buckets m)

pub amp_free_box_lem :
    (box : Box) → amp_free_box (some box) ≡ release (2 * length (flatten box.buckets) + 1)
unfolding amp_free_box
amp_free_box_lem box = fun_ext (free_all_lem box.buckets)

unfoldable pub amp_num_keys : Box → ℕ
amp_num_keys box = box.length

-- 0 if the key was found, -1 if not.
unfoldable pub amp_del_key : Box → Bytes → Memory → ℤ × Box × Memory
unfolding release
amp_del_key box key m = elim (view box_key key_of box.buckets key) [
  | some p ↦ (
    pos 0,
    record {
      buckets = cut box_key key_of box.buckets key;
      length = box.length - 1;
      timestamp = (box.timestamp + 1) % 2 ^ 32;
    },
    release 2 m,
  )
  | none ↦ (negsuc 0, box, m)
]

-- The loop of amp_has_key, which also compares the cached sizes.
unfoldable pub has_key_loop : ℕ → Bytes → List KeyValue → Bool
has_key_loop key_size key [] = false
has_key_loop key_size key (p ∷ c) =
    (key_size == p.key_size && str_eq key p.key) || has_key_loop key_size key c

unfoldable pub amp_has_key : Box → Bytes → Bool
amp_has_key box key = has_key_loop (strlen key) key (bucket box_key key_of box.buckets key)

-- The pointer to the value, with its size.
unfoldable pub get_buf : Box → Bytes → Result (Bytes × ℕ)
get_buf box key = elim (view box_key key_of box.buckets key) [
  | some p ↦ ok (p.value, p.value_size)
  | none ↦ err key_not_found
]

unfoldable pub new_key_value : Bytes → Bytes → ℕ → KeyValue
new_key_value key buf buf_size = record {
  key = c_str key;
  key_size = strlen key;
  value = take buf_size buf;
  value_size = buf_size;
}

-- The hash-table store of _amp_put_buf, once `keyval` is allocated and filled in.
unfoldable pub store : Box → Bytes → KeyValue → Memory → ℕ × Box × Memory
unfolding malloc release
store box key keyval m = elim (view box_key key_of box.buckets key) [
  | none ↦
      let (got, m') = malloc m in
      if got
      then (
        0,
        record {
          buckets = link box_key key_of box.buckets keyval;
          length = box.length + 1;
          timestamp = (box.timestamp + 1) % 2 ^ 32;
        },
        m',
      )
      else (enomem, box, release 1 m')
  | some p ↦ (
    0,
    record box {
      buckets = rewrite box_key key_of box.buckets key (λ _. keyval);
      timestamp = (box.timestamp + 1) % 2 ^ 32;
    },
    release 1 m,
  )
]

-- _amp_put_buf: `buf_size` is a C int, and that many bytes of `buf` are copied. The source keeps
-- strlen of the key in an int as well: keys here are shorter than 2^31 bytes.
unfoldable pub put_buf : Box → Bytes → Bytes → ℤ → Memory → ℕ × Box × Memory
unfolding malloc
put_buf box key buf buf_size m =
    let key_size = strlen key in
    if ltb max_key_length key_size || key_size == 0
    then (bad_key_size, box, m)
    else if ltb_ℤ (pos max_value_length) buf_size || ltb_ℤ buf_size (pos 0)
    then (bad_val_size, box, m)
    else (let (got, m') = malloc m in
        if got
        then store box key (new_key_value key buf (pos_part buf_size)) m'
        else (enomem, box, m'))

-- The inner loop of amp_boxes_equal, over one bucket of the first box.
unfoldable pub boxes_equal_chain : Box → List KeyValue → Bool
boxes_equal_chain box2 [] = true
boxes_equal_chain box2 (p ∷ c) =
    amp_has_key box2 p.key
    && elim (get_buf box2 p.key) [
      | ok (buf, buf_size) ↦
          p.value_size == buf_size && bytes_eq (take buf_size p.value) (take buf_size buf)
      | err e ↦ false
    ]
    && boxes_equal_chain box2 c

unfoldable pub boxes_equal_loop : Box → List (List KeyValue) → Bool
boxes_equal_loop box2 [] = true
boxes_equal_loop box2 (c ∷ bs) = boxes_equal_chain box2 c && boxes_equal_loop box2 bs

unfoldable pub amp_boxes_equal : Box → Box → Bool
amp_boxes_equal box box2 =
    amp_num_keys box == amp_num_keys box2 && boxes_equal_loop box2 box.buckets
