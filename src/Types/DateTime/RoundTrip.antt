-- ===== src/Types/DateTime/RoundTrip.antt =====
-- Date-times come back from a box as they were put in, and amp_put_datetime takes no others (types.c).
use libamp.Common.{
  ℕ, suc, ◌≡◌, refl, sym, ap, ◌∙◌, arith, false, [], ◌∷◌, ◌++◌, length, take, if◌then◌else◌,
  Bool-cases, inl, inr, take_all, not, ◌&&◌, ◌||◌, ◌+◌, ◌⊎◌,
}
use libamp.Common.Int.{ℤ, pos, negsuc, ◌≤ℤ◌, ◌+ℤ◌, ◌-ℤ◌, ◌*ℤ◌}
use libamp.CString.{Bytes}
use libamp.CString.Laws.{str_eq_refl}
use libamp.Memory.{Memory}
use libamp.Errors.{ok, is_ok, encode_error, bad_key_size, enomem}
use libamp.Box.{Box, get_buf, put_buf}
use libamp.Box.Valid.{IsValid}
use libamp.Box.Put.{put_buf-lookup, put_buf_code, good_key}
use libamp.Buftoll.{buftoll_range}
use libamp.Types.{amp_put_bytes, amp_get_bytes}
use libamp.Types.DateTime.{
  DateTime, invalid, outside, show_padded, datetime_text, dt_size, offset_parts, signed_offset,
  read_datetime, amp_put_datetime, amp_get_datetime,
}
use libamp.Types.DateTime.Padded.{padded_read}

-- `k` bytes that are read as `v`.
abbrev Field : ℕ → ℕ → ℕ → ℤ → Bytes → Type 0
Field k lo hi v s = (length s ≡ k) × (buftoll_range s (pos lo) (pos hi) ≡ ok v)

two_bytes :
    (s : Bytes) (lo hi : ℕ) (v : ℤ)
    → Field 2 lo hi v s
    → (a b : ℕ) × (s ≡ a ∷ b ∷ []) × (buftoll_range (a ∷ b ∷ []) (pos lo) (pos hi) ≡ ok v)
two_bytes (a ∷ b ∷ []) lo hi v h = (a, b, refl, h.1)
two_bytes [] lo hi v h = absurd (omega arith)
two_bytes (a ∷ []) lo hi v h = absurd (omega arith)
two_bytes (a ∷ b ∷ c ∷ s) lo hi v h = absurd (omega arith)

more_bytes :
    (s : Bytes) (n : ℕ)
    → length s ≡ suc (suc n)
    → (a b : ℕ) × (t : Bytes) × (s ≡ a ∷ b ∷ t) × (length t ≡ n)
more_bytes (a ∷ b ∷ t) n h = (a, b, t, refl, omega arith)
more_bytes [] n h = absurd (omega arith)
more_bytes (a ∷ []) n h = absurd (omega arith)

-- The hours and minutes of an offset in its range are in theirs, and stand for it.
offset_fields :
    (v : ℤ)
    → outside v (negsuc 1438) (pos 1439) ≡ false
    → (outside (offset_parts v).1 (pos 0) (pos 23) ≡ false)
      × (outside (offset_parts v).2 (pos 0) (pos 59) ≡ false)
      × (signed_offset (offset_parts v).0 (offset_parts v).1 (offset_parts v).2 ≡ ok v)
unfolding signed_offset ◌+ℤ◌ ◌-ℤ◌ ◌*ℤ◌
offset_fields (pos n) h = ground arith
offset_fields (negsuc n) h = ground arith

four_bytes :
    (s : Bytes) (lo hi : ℕ) (v : ℤ)
    → Field 4 lo hi v s
    → (a b c d : ℕ) × (s ≡ a ∷ b ∷ c ∷ d ∷ [])
      × (buftoll_range (a ∷ b ∷ c ∷ d ∷ []) (pos lo) (pos hi) ≡ ok v)
four_bytes s lo hi v (wide, read) =
    let (a, b, t, same, rest) = more_bytes s 2 wide in
    let (c, d, u, same', none_left) = more_bytes t 0 rest in
    let whole : s ≡ a ∷ b ∷ c ∷ d ∷ [] = ground (arith, same, same', none_left) in
    (a, b, c, d, whole, sym (ap (λ x. buftoll_range x (pos lo) (pos hi)) whole) ∙ read)

six_bytes :
    (s : Bytes) (lo hi : ℕ) (v : ℤ)
    → Field 6 lo hi v s
    → (a b c d e f : ℕ) × (s ≡ a ∷ b ∷ c ∷ d ∷ e ∷ f ∷ [])
      × (buftoll_range (a ∷ b ∷ c ∷ d ∷ e ∷ f ∷ []) (pos lo) (pos hi) ≡ ok v)
six_bytes s lo hi v (wide, read) =
    let (a, b, t, same, rest) = more_bytes s 4 wide in
    let (c, d, u, same', rest') = more_bytes t 2 rest in
    let (e, f, w, same'', none_left) = more_bytes u 0 rest' in
    let whole : s ≡ a ∷ b ∷ c ∷ d ∷ e ∷ f ∷ [] = ground (arith, same, same', same'', none_left) in
    (a, b, c, d, e, f, whole, sym (ap (λ x. buftoll_range x (pos lo) (pos hi)) whole) ∙ read)

-- A text whose fields are read as those of a date-time is read as that date-time.
text_read :
    (v : DateTime) (sign : ℕ) (oh om : ℤ) (y mo d h mi s ms th tm : Bytes)
    → Field 4 1 9999 v.year y
    → Field 2 1 12 v.month mo
    → Field 2 1 31 v.day d
    → Field 2 0 23 v.hour h
    → Field 2 0 59 v.min mi
    → Field 2 0 59 v.sec s
    → Field 6 0 999999 v.msec ms
    → Field 2 0 23 oh th
    → Field 2 0 59 om tm
    → signed_offset sign oh om ≡ ok v.utc_offset
    → (let text =
          y
          ++ b'-' ∷ mo
          ++ b'-' ∷ d
          ++ b'T' ∷ h
          ++ b':' ∷ mi
          ++ b':' ∷ s
          ++ b'.' ∷ ms
          ++ sign ∷ th
          ++ b':' ∷ tm in
        (length text ≡ dt_size) × (read_datetime text ≡ ok v))
unfolding read_datetime
text_read v sign oh om y mo d h mi s ms th tm fy fmo fd fh fmi fs fms fth ftm offset =
    let (y0, y1, y2, y3, ey, ry) = four_bytes y 1 9999 v.year fy in
    let (mo0, mo1, emo, rmo) = two_bytes mo 1 12 v.month fmo in
    let (d0, d1, ed, rd) = two_bytes d 1 31 v.day fd in
    let (h0, h1, eh, rh) = two_bytes h 0 23 v.hour fh in
    let (mi0, mi1, emi, rmi) = two_bytes mi 0 59 v.min fmi in
    let (s0, s1, es, rs) = two_bytes s 0 59 v.sec fs in
    let (ms0, ms1, ms2, ms3, ms4, ms5, ems, rms) = six_bytes ms 0 999999 v.msec fms in
    let (th0, th1, eth, rth) = two_bytes th 0 23 oh fth in
    let (tm0, tm1, etm, rtm) = two_bytes tm 0 59 om ftm in
    rw (ey, emo, ed, eh, emi, es, ems, eth, etm)
      (refl, rw (ry, rmo, rd, rh, rmi, rs, rms, rth, rtm, offset) refl)

-- The text of a date-time that passes the test is AMP_DT_SIZE bytes, and read back.
datetime_text-read :
    (v : DateTime)
    → invalid v ≡ false
    → (let parts = offset_parts v.utc_offset in
        let text = datetime_text v parts.0 parts.1 parts.2 in
        (length text ≡ dt_size) × (read_datetime text ≡ ok v))
datetime_text-read v good =
    let parts = offset_parts v.utc_offset in
    let (hours, minutes, offset) = offset_fields v.utc_offset (ground arith) in
    text_read v parts.0 parts.1 parts.2 (show_padded 4 v.year) (show_padded 2 v.month)
      (show_padded 2 v.day) (show_padded 2 v.hour) (show_padded 2 v.min) (show_padded 2 v.sec)
      (show_padded 6 v.msec) (show_padded 2 parts.1) (show_padded 2 parts.2)
      (padded_read 4 1 9999 v.year (omega arith) (omega arith) (omega arith) (ground arith))
      (padded_read 2 1 12 v.month (omega arith) (omega arith) (omega arith) (ground arith))
      (padded_read 2 1 31 v.day (omega arith) (omega arith) (omega arith) (ground arith))
      (padded_read 2 0 23 v.hour (omega arith) (omega arith) (omega arith) (ground arith))
      (padded_read 2 0 59 v.min (omega arith) (omega arith) (omega arith) (ground arith))
      (padded_read 2 0 59 v.sec (omega arith) (omega arith) (omega arith) (ground arith))
      (padded_read 6 0 999999 v.msec (omega arith) (omega arith) (omega arith) (ground arith))
      (padded_read 2 0 23 parts.1 (omega arith) (omega arith) (omega arith) hours)
      (padded_read 2 0 59 parts.2 (omega arith) (omega arith) (omega arith) minutes) offset

put_text :
    (box : Box) (key text : Bytes) (m : Memory)
    → IsValid box
    → length text ≡ dt_size
    → (put_buf box key (take dt_size text) (pos dt_size) m).0 ≡ 0
    → get_buf (put_buf box key (take dt_size text) (pos dt_size) m).1 key ≡ ok (text, dt_size)
put_text box key text m valid wide done =
    let whole : take dt_size text ≡ text = take_all dt_size text (omega arith) in
    let back = put_buf-lookup box key (take dt_size text) (pos dt_size) m valid done key in
    back ∙ rw (str_eq_refl key, whole, whole) refl

-- If amp_put_datetime answers 0 on a well-formed box, amp_get_datetime with the same key gives the
-- date-time back, all eight fields of it, whatever its offset.
pub get_datetime-put :
    (box : Box) (key : Bytes) (v : DateTime) (m : Memory)
    → IsValid box
    → (amp_put_datetime box key v m).0 ≡ 0
    → amp_get_datetime (amp_put_datetime box key v m).1 key ≡ ok v
unfolding amp_put_datetime amp_get_datetime amp_put_bytes amp_get_bytes
get_datetime-put box key v m valid done = elim (Bool-cases (invalid v)) [
  | inl bad ↦ absurd (ground (arith, bad))
  | inr good ↦
      let parts = offset_parts v.utc_offset in
      let text = datetime_text v parts.0 parts.1 parts.2 in
      let (wide, read) = datetime_text-read v good in
      let stored : (put_buf box key (take dt_size text) (pos dt_size) m).0 ≡ 0 =
        ground (arith, good, done) in
      let back = put_text box key text m valid wide stored in
      rw good (rw (back, amp_get_datetime) read)
]

-- The years 1 to 9999, months 1 to 12, days 1 to 31, hours 0 to 23, minutes and seconds 0 to 59,
-- microseconds 0 to 999999, and offsets of less than a day either way, in minutes.
pub record InRanges (v : DateTime) : Type 0 where
  pub year : (pos 1 ≤ℤ v.year) × (v.year ≤ℤ pos 9999)
  pub month : (pos 1 ≤ℤ v.month) × (v.month ≤ℤ pos 12)
  pub day : (pos 1 ≤ℤ v.day) × (v.day ≤ℤ pos 31)
  pub hour : (pos 0 ≤ℤ v.hour) × (v.hour ≤ℤ pos 23)
  pub min : (pos 0 ≤ℤ v.min) × (v.min ≤ℤ pos 59)
  pub sec : (pos 0 ≤ℤ v.sec) × (v.sec ≤ℤ pos 59)
  pub msec : (pos 0 ≤ℤ v.msec) × (v.msec ≤ℤ pos 999999)
  pub utc_offset : (negsuc 1438 ≤ℤ v.utc_offset) × (v.utc_offset ≤ℤ pos 1439)

InRanges-valid : (v : DateTime) → InRanges v → invalid v ≡ false
InRanges-valid v r =
    ground (arith, r.year, r.month, r.day, r.hour, r.min, r.sec, r.msec, r.utc_offset)

valid-InRanges : (v : DateTime) → invalid v ≡ false → InRanges v
valid-InRanges v good = record {
  year = (ground arith, ground arith);
  month = (ground arith, ground arith);
  day = (ground arith, ground arith);
  hour = (ground arith, ground arith);
  min = (ground arith, ground arith);
  sec = (ground arith, ground arith);
  msec = (ground arith, ground arith);
  utc_offset = (ground arith, ground arith);
}

-- amp_put_datetime answers AMP_ENCODE_ERROR exactly if a field is outside its range: the years 1 to
-- 9999, months 1 to 12, days 1 to 31, hours 0 to 23, minutes and seconds 0 to 59, microseconds 0 to
-- 999999, offsets from -1439 to 1439 minutes. Otherwise it answers AMP_BAD_KEY_SIZE exactly for a
-- key of no bytes or of more than 255, else ENOMEM exactly if an allocation that it needs fails, and
-- else 0; a date-time is never too long.
pub put_datetime_code :
    (box : Box) (key : Bytes) (v : DateTime) (m : Memory)
    → (InRanges v
        × ((amp_put_datetime box key v m).0 ≡ (
            if not (good_key key)
            then bad_key_size
            else if m.succeeds m.calls && (is_ok (get_buf box key) || m.succeeds (m.calls + 1))
            then 0
            else enomem)))
      ⊎ ((¬ (InRanges v)) × ((amp_put_datetime box key v m).0 ≡ encode_error))
unfolding amp_put_datetime amp_put_bytes
put_datetime_code box key v m =
    let parts = offset_parts v.utc_offset in
    let text = take dt_size (datetime_text v parts.0 parts.1 parts.2) in
    let stored = put_buf_code box key text (pos dt_size) m in
    elim (Bool-cases (invalid v)) [
      | inl bad ↦ inr (λ r. absurd (ground (arith, bad, InRanges-valid v r)), rw bad refl)
      | inr good ↦ inl (valid-InRanges v good, rw good stored)
    ]
