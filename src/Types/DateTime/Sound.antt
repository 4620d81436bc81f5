-- ===== src/Types/DateTime/Sound.antt =====
-- What amp_get_datetime (types.c) takes is a date-time that amp_put_datetime would take.
use libamp.Common.{
  ℕ, ◌+◌, ◌*◌, ◌≤◌, ◌≡◌, sym, ap, ◌∙◌, arith, true, false, get_or, take, drop, ◌==◌, Bool-cases,
  inl, inr,
}
use libamp.Common.Int.{ℤ, pos, negsuc, signed, ◌+ℤ◌, ◌-ℤ◌, ◌*ℤ◌}
use libamp.CString.{Bytes}
use libamp.Errors.{Result, ok, ◌>>=◌, ok_before, Result-cases}
use libamp.Box.{Box, get_buf}
use libamp.Buftoll.{buftoll_range}
use libamp.Types.{amp_get_bytes}
use libamp.Types.DateTime.{
  DateTime, invalid, outside, field, signed_offset, read_datetime, amp_get_datetime,
}

-- What buftoll_range accepts is in its range.
range_inside : (s : Bytes) (lo hi v : ℤ) → buftoll_range s lo hi ≡ ok v → outside v lo hi ≡ false
unfolding buftoll_range
range_inside s lo hi v e = ground arith

-- A field is read, and in its range, if the rest of the reading gives a result.
field_ok :
    {B : Type 0} (buf : Bytes) (at size : ℕ) (lo hi : ℤ) (rest : ℤ → Result B) {b : B}
    → (field buf at size lo hi >>= rest) ≡ ok b
    → (v : ℤ) × (outside v lo hi ≡ false) × (rest v ≡ ok b)
field_ok buf at size lo hi rest e =
    let (v, same, h) = ok_before (field buf at size lo hi) rest e in
    (v, range_inside (take size (drop at buf)) lo hi v same, h)

ahead : (h m : ℕ) → pos h *ℤ pos 60 +ℤ pos m ≡ pos (h * 60 + m)
unfolding ◌+ℤ◌ ◌*ℤ◌
ahead h m = ground arith

behind : (h m : ℕ) → pos h *ℤ negsuc 59 -ℤ pos m ≡ signed true (h * 60 + m)
unfolding ◌-ℤ◌ ◌*ℤ◌
behind h m = ground arith

-- Hours and minutes that may be written make an offset in its range.
offset_inside :
    (c h m : ℕ) (v : ℤ)
    → h ≤ 23
    → m ≤ 59
    → signed_offset c (pos h) (pos m) ≡ ok v
    → outside v (negsuc 1438) (pos 1439) ≡ false
unfolding signed_offset
offset_inside c h m v hh hm e = elim (Bool-cases (c == b'+')) [
  | inl p ↦
      let same : ok (pos (h * 60 + m)) ≡ ok v = sym (ap ok (ahead h m)) ∙ ground (arith, p, e) in
      ground (arith, same)
  | inr p ↦ elim (Bool-cases (c == b'-')) [
    | inl q ↦
        let same : ok (signed true (h * 60 + m)) ≡ ok v =
          sym (ap ok (behind h m)) ∙ ground (arith, p, q, e) in
        ground (arith, same)
    | inr q ↦ absurd (ground (arith, p, q, e))
  ]
]

offset_ok :
    {B : Type 0} (c : ℕ) (h m : ℤ) (rest : ℤ → Result B) {b : B}
    → outside h (pos 0) (pos 23) ≡ false
    → outside m (pos 0) (pos 59) ≡ false
    → (signed_offset c h m >>= rest) ≡ ok b
    → (v : ℤ) × (outside v (negsuc 1438) (pos 1439) ≡ false) × (rest v ≡ ok b)
offset_ok c (negsuc h) m rest hh hm e = absurd (ground (arith, hh))
offset_ok c (pos h) (negsuc m) rest hh hm e = absurd (ground (arith, hm))
offset_ok c (pos h) (pos m) rest hh hm e =
    let (v, same, k) = ok_before (signed_offset c (pos h) (pos m)) rest e in
    (v, offset_inside c h m v (ground (arith, hh)) (ground (arith, hm)) same, k)

read_inside : (buf : Bytes) (v : DateTime) → read_datetime buf ≡ ok v → invalid v ≡ false
unfolding read_datetime
read_inside buf v e =
    let (year, hy, e1) = field_ok buf 0 4 (pos 1) (pos 9999) _ e in
    let (month, hmo, e2) = field_ok buf 5 2 (pos 1) (pos 12) _ e1 in
    let (day, hd, e3) = field_ok buf 8 2 (pos 1) (pos 31) _ e2 in
    let (hour, hh, e4) = field_ok buf 11 2 (pos 0) (pos 23) _ e3 in
    let (min, hmi, e5) = field_ok buf 14 2 (pos 0) (pos 59) _ e4 in
    let (sec, hs, e6) = field_ok buf 17 2 (pos 0) (pos 59) _ e5 in
    let (msec, hms, e7) = field_ok buf 20 6 (pos 0) (pos 999999) _ e6 in
    let (oh, hoh, e8) = field_ok buf 27 2 (pos 0) (pos 23) _ e7 in
    let (om, hom, e9) = field_ok buf 30 2 (pos 0) (pos 59) _ e8 in
    let (offset, hof, e10) = offset_ok (get_or buf 26 0) oh om _ hoh hom e9 in
    ground (arith, hy, hmo, hd, hh, hmi, hs, hms, hof, e10)

-- Whatever the bytes that were received, a date-time that amp_get_datetime makes of them is within
-- the ranges of all its fields, so that amp_put_datetime takes it: nothing else gets through.
pub get_datetime_sound :
    (box : Box) (key : Bytes) (v : DateTime) → amp_get_datetime box key ≡ ok v → invalid v ≡ false
unfolding amp_get_datetime amp_get_bytes
get_datetime_sound box key v e = elim (Result-cases (get_buf box key)) [
  | inr (code, same) ↦ absurd (ground (arith, same))
  | inl ((buf, size), same) ↦
      let read : read_datetime buf ≡ ok v = ground (arith, same) in read_inside buf v read
]
