-- ===== src/Types/DateTime.antt =====
-- Date-times (types.c, and AMP_DateTime_T of amp.h): amp_put_datetime and amp_get_datetime.
pub mod Padded
pub mod RoundTrip
pub mod Sound
use libamp.Common.{
  ℕ, suc, ◌-◌, Bool, ◌||◌, [], ◌∷◌, ◌++◌, take, drop, replicate, get_or, length, ◌==◌,
  if◌then◌else◌,
}
use libamp.Common.Int.{ℤ, pos, negsuc, ◌+ℤ◌, ◌-ℤ◌, ◌*ℤ◌, ltb_ℤ, leb_ℤ, c_div, c_rem}
use libamp.CString.{Bytes}
use libamp.Memory.{Memory}
use libamp.Errors.{Result, ok, err, ◌>>=◌, decode_error, encode_error}
use libamp.Box.{Box}
use libamp.Buftoll.{buftoll_range}
use libamp.Types.{amp_put_bytes, amp_get_bytes}
use libamp.Types.Decimal.{show_ℕ}

pub record DateTime : Type 0 where
  pub year : ℤ
  pub month : ℤ
  pub day : ℤ
  pub hour : ℤ
  pub min : ℤ
  pub sec : ℤ
  pub msec : ℤ
  pub utc_offset : ℤ

-- The conversion %0kd of printf, for a width `k`.
unfoldable pub show_padded : ℕ → ℤ → Bytes
show_padded k (pos n) = replicate (k - length (show_ℕ n)) b'0' ++ show_ℕ n
show_padded k (negsuc n) = b'-' ∷ replicate (k - 1 - length (show_ℕ (suc n))) b'0' ++ show_ℕ (suc n)

abbrev pub outside : ℤ → ℤ → ℤ → Bool
outside v least most = ltb_ℤ v least || ltb_ℤ most v

-- The test for values that are not within their ranges.
abbrev pub invalid : DateTime → Bool
invalid value =
    outside value.year (pos 1) (pos 9999)
    || outside value.month (pos 1) (pos 12)
    || outside value.day (pos 1) (pos 31)
    || outside value.hour (pos 0) (pos 23)
    || outside value.min (pos 0) (pos 59)
    || outside value.sec (pos 0) (pos 59)
    || outside value.msec (pos 0) (pos 999999)
    || outside value.utc_offset (negsuc 1438) (pos 1439)

-- What the format "%04d-%02d-%02dT%02d:%02d:%02d.%06ld%c%02d:%02d" spells.
abbrev pub datetime_text : DateTime → ℕ → ℤ → ℤ → Bytes
datetime_text value sign offset_hour offset_min =
    show_padded 4 value.year
    ++ b'-' ∷ show_padded 2 value.month
    ++ b'-' ∷ show_padded 2 value.day
    ++ b'T' ∷ show_padded 2 value.hour
    ++ b':' ∷ show_padded 2 value.min
    ++ b':' ∷ show_padded 2 value.sec
    ++ b'.' ∷ show_padded 6 value.msec
    ++ sign ∷ show_padded 2 offset_hour
    ++ b':' ∷ show_padded 2 offset_min

abbrev pub dt_size : ℕ
dt_size = 32

-- The sign, and the hours and minutes without it.
abbrev pub offset_parts : ℤ → ℕ × ℤ × ℤ
offset_parts utc_offset =
    let offset_hour = c_div utc_offset 60 in
    let offset_min = c_rem utc_offset 60 in
    if leb_ℤ (pos 0) utc_offset
    then (b'+', offset_hour, offset_min)
    else (b'-', pos 0 -ℤ offset_hour, pos 0 -ℤ offset_min)

-- The buffer has room for AMP_DT_SIZE bytes and a terminator.
unfoldable pub amp_put_datetime : Box → Bytes → DateTime → Memory → ℕ × Box × Memory
amp_put_datetime box key value m =
    let (sign, offset_hour, offset_min) = offset_parts value.utc_offset in
    let buf = take dt_size (datetime_text value sign offset_hour offset_min) in
    if invalid value then (encode_error, box, m) else amp_put_bytes box key buf (pos dt_size) m

abbrev pub field : Bytes → ℕ → ℕ → ℤ → ℤ → Result ℤ
field buf at size minval maxval = buftoll_range (take size (drop at buf)) minval maxval

-- The offset, by its sign.
unfoldable pub signed_offset : ℕ → ℤ → ℤ → Result ℤ
unfolding ◌+ℤ◌ ◌-ℤ◌ ◌*ℤ◌
signed_offset c offset_hour offset_min =
    if c == b'+'
    then ok (offset_hour *ℤ pos 60 +ℤ offset_min)
    else if c == b'-'
    then ok (offset_hour *ℤ negsuc 59 -ℤ offset_min)
    else err decode_error

unfoldable pub read_datetime : Bytes → Result DateTime
read_datetime buf = do
  year ← field buf 0 4 (pos 1) (pos 9999)
  month ← field buf 5 2 (pos 1) (pos 12)
  day ← field buf 8 2 (pos 1) (pos 31)
  hour ← field buf 11 2 (pos 0) (pos 23)
  min ← field buf 14 2 (pos 0) (pos 59)
  sec ← field buf 17 2 (pos 0) (pos 59)
  msec ← field buf 20 6 (pos 0) (pos 999999)
  offset_hour ← field buf 27 2 (pos 0) (pos 23)
  offset_min ← field buf 30 2 (pos 0) (pos 59)
  utc_offset ← signed_offset (get_or buf 26 0) offset_hour offset_min
  ok (record {
    year = year;
    month = month;
    day = day;
    hour = hour;
    min = min;
    sec = sec;
    msec = msec;
    utc_offset = utc_offset;
  })

-- What the fields that an error leaves filled in hold is not kept.
unfoldable pub amp_get_datetime : Box → Bytes → Result DateTime
amp_get_datetime box key = elim (amp_get_bytes box key) [
  | err e ↦ err e
  | ok (buf, buf_size) ↦ if buf_size == dt_size then read_datetime buf else err decode_error
]
