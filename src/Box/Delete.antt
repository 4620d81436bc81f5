-- ===== src/Box/Delete.antt =====
-- amp_del_key (box.c).
use libamp.Common.{ℕ, ◌+◌, ◌-◌, ◌≡◌, refl, arith, some, inl, inr, if◌then◌else◌, Option-cases}
use libamp.Common.Int.{pos, negsuc}
use libamp.CString.{Bytes, str_eq}
use libamp.CString.Laws.{box_key}
use libamp.Hashing.Buckets.{view, view_congr}
use libamp.Hashing.Writes.{cut, view-cut, length-cut, cut-IsSound, cut-All, width-cut}
use libamp.Memory.{Memory}
use libamp.Errors.{err, is_ok, key_not_found}
use libamp.Box.{Box, KeyValue, key_of, get_buf, amp_del_key}
use libamp.Box.Valid.{IsEntry, IsValid}

-- After amp_del_key on a well-formed box, every key that strcmp takes for the deleted one is
-- missing, and every other lookup is as before, whether or not the key was there.
pub del_key-lookup :
    (box : Box) (key : Bytes) (m : Memory)
    → IsValid box
    → (j : Bytes)
    → get_buf (amp_del_key box key m).1 j
      ≡ (if str_eq j key then err key_not_found else get_buf box j)
unfolding amp_del_key get_buf
del_key-lookup box key m v j = ground (
  arith,
  view-cut box_key key_of box.buckets v.roomy key j v.sound,
  view_congr box_key key_of box.buckets j key,
)

cut-IsValid :
    (box : Box) (key : Bytes) (old : KeyValue) (t : ℕ)
    → IsValid box
    → view box_key key_of box.buckets key ≡ some old
    → IsValid (record {
      buckets = cut box_key key_of box.buckets key;
      length = box.length - 1;
      timestamp = t;
    })
cut-IsValid box key old t v found =
    let bs = box.buckets in
    record {
      roomy = rw (width-cut box_key key_of bs key) v.roomy;
      sound = cut-IsSound box_key key_of bs v.roomy v.sound key;
      counted = omega (arith, length-cut box_key key_of bs v.roomy key old found, v.counted);
      entries = cut-All box_key key_of IsEntry bs v.entries key;
    }

-- amp_del_key keeps a box well-formed.
pub del_key-IsValid :
    (box : Box) (key : Bytes) (m : Memory) → IsValid box → IsValid (amp_del_key box key m).1
unfolding amp_del_key
del_key-IsValid box key m v = elim (Option-cases (view box_key key_of box.buckets key)) [
  | inl absent ↦ rw (absent, amp_del_key) v
  | inr (old, found) ↦ rw (found, amp_del_key) (cut-IsValid box key old _ v found)
]

-- amp_del_key answers 0 if the key is found, and -1 if not; the box has one key less, and the two
-- blocks of a binding are freed, exactly in the first case, and nothing is allocated. In the second
-- case the box is as it was.
pub del_key_answer :
    (box : Box) (key : Bytes) (m : Memory)
    → IsValid box
    → let found = is_ok (get_buf box key) in
      let r = amp_del_key box key m in
      (r.0 ≡ (if found then pos 0 else negsuc 0))
      × (r.1.length + (if found then 1 else 0) ≡ box.length)
      × (r.2.frees ≡ m.frees + (if found then 2 else 0))
      × (r.2.allocs ≡ m.allocs)
      × (r.1 ≡ (if found then r.1 else box))
unfolding amp_del_key get_buf
del_key_answer box key m v = elim (Option-cases (view box_key key_of box.buckets key)) [
  | inl absent ↦ rw (absent, amp_del_key, get_buf) (refl, omega arith, omega arith, refl, refl)
  | inr (old, found) ↦
      let one = length-cut box_key key_of box.buckets v.roomy key old found in
      rw (found, amp_del_key, get_buf)
        (refl, omega (arith, one, v.counted), omega arith, refl, refl)
]
