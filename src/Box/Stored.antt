-- ===== src/Box/Stored.antt =====
-- A value that is put in to a box (box.c, types.c), with an allocator that never fails.
use libamp.Common.{
  ℕ, ◌≤◌, ◌≡◌, refl, ◌∙◌, arith, true, false, take, take_all, length, length-take, subst,
}
use libamp.Common.Int.{pos}
use libamp.CString.{Bytes, str_eq}
use libamp.CString.Laws.{str_eq_refl}
use libamp.Memory.{Memory}
use libamp.Memory.Plenty.{IsPlenty}
use libamp.Errors.{ok}
use libamp.Box.{Box, put_buf, get_buf}
use libamp.Box.Valid.{IsValid}
use libamp.Box.Octets.{HasBytes, IsByteString, put_buf-HasBytes}
use libamp.Box.Put.{good_key}
use libamp.Box.Plenty.{put_buf-IsPlenty}

-- A well-formed box of bytes.
pub record IsGood (box : Box) : Type 0 where
  pub valid : IsValid box
  pub octets : HasBytes box

-- The value was stored, and the box is as it was but for that.
pub record IsStored (box : Box) (key value : Bytes) (box' : Box) : Type 0 where
  pub good : IsGood box'
  pub found : get_buf box' key ≡ ok (value, length value)
  pub others : (j : Bytes) → str_eq j key ≡ false → get_buf box' j ≡ get_buf box j

-- A key that may be stored under.
pub record IsKey (key : Bytes) : Type 0 where
  pub fits : good_key key ≡ true
  pub octets : IsByteString key

-- What a put leaves that stored the value.
abbrev pub Stores : Box → Bytes → Bytes → ℕ × Box × Memory → Type 0
Stores box key value (e, box', m') = (e ≡ 0) × IsStored box key value box' × IsPlenty m'

-- The first bytes of a buffer are put.
pub put_prefix-IsStored :
    (box : Box) (key buf : Bytes) (n : ℕ) (m : Memory)
    → IsGood box
    → IsKey key
    → IsByteString buf
    → n ≤ length buf
    → n ≤ 65535
    → IsPlenty m
    → Stores box key (take n buf) (put_buf box key buf (pos n) m)
put_prefix-IsStored box key buf n m good k octets fits short plenty =
    let (done, valid, plenty', lookup) =
      put_buf-IsPlenty box key buf n m good.valid k.fits fits short plenty in
    let size : length (take n buf) ≡ n = omega (arith, length-take n buf) in
    (
      done,
      record {
        good = record {
          valid = valid;
          octets = put_buf-HasBytes box key buf (pos n) m good.octets k.octets octets;
        };
        found = lookup key ∙ rw (str_eq_refl key, size) refl;
        others = λ j apart. lookup j ∙ rw apart refl;
      },
      plenty',
    )

pub put_buf-IsStored :
    (box : Box) (key value : Bytes) (m : Memory)
    → IsGood box
    → IsKey key
    → IsByteString value
    → length value ≤ 65535
    → IsPlenty m
    → Stores box key value (put_buf box key value (pos (length value)) m)
put_buf-IsStored box key value m good k octets short plenty =
    subst (λ v. Stores box key v (put_buf box key value (pos (length value)) m))
      (take_all (length value) value (omega arith))
      (put_prefix-IsStored box key value (length value) m good k octets (omega arith) short plenty)
