-- ===== src/Tests/DateTimeTests.antt =====
-- The theorems on date-times, at a time in the zone of Newfoundland.
use libamp.Common.{◌⊎◌, ◌≡◌, refl, false, ◌+◌, ◌&&◌, ◌||◌, not, if◌then◌else◌}
use libamp.Common.Int.{pos, negsuc, ◌-ℤ◌, ◌+ℤ◌, ◌*ℤ◌}
use libamp.CString.{Bytes, codes}
use libamp.Errors.{ok, is_ok, encode_error, bad_key_size, enomem}
use libamp.Box.{Box, empty_box, get_buf, put_buf}
use libamp.Box.Valid.{empty_box-IsValid}
use libamp.Box.Put.{good_key}
use libamp.Buftoll.{buftoll, buftoll_range, digits_loop, cutoff, cutlim, too_big, add_digit}
use libamp.Types.{amp_put_bytes, amp_get_bytes}
use libamp.Types.Decimal.{decimal, show_ℕ}
use libamp.Types.DateTime.{
  DateTime, invalid, show_padded, signed_offset, read_datetime, amp_put_datetime, amp_get_datetime,
}
use libamp.Types.DateTime.RoundTrip.{get_datetime-put, put_datetime_code, InRanges}
use libamp.Types.DateTime.Sound.{get_datetime_sound}
use libamp.Tests.Samples.{plenty, sum_key, box_program}

abbrev storm : DateTime
storm = record {
  year = pos 2012;
  month = pos 1;
  day = pos 23;
  hour = pos 12;
  min = pos 34;
  sec = pos 56;
  msec = pos 54321;
  utc_offset = negsuc 209;
}

abbrev storm_text : Bytes
storm_text = codes "2012-01-23T12:34:56.054321-03:30"

datetime_program : Unit {0}
unfolding box_program buftoll buftoll_range digits_loop cutoff cutlim too_big add_digit ◌-ℤ◌ ◌+ℤ◌
    ◌*ℤ◌ decimal show_ℕ show_padded signed_offset read_datetime amp_put_datetime amp_get_datetime
    amp_put_bytes amp_get_bytes
datetime_program = tt

stored_text :
    get_buf (amp_put_datetime empty_box sum_key storm plenty).1 sum_key ≡ ok (storm_text, 32)
stored_text = unfold datetime_program in refl

get_datetime-put_example :
    amp_get_datetime (amp_put_datetime empty_box sum_key storm plenty).1 sum_key ≡ ok storm
get_datetime-put_example =
    get_datetime-put empty_box sum_key storm plenty empty_box-IsValid
      (unfold datetime_program in refl)

put_datetime_code_example :
    (InRanges storm
      × ((amp_put_datetime empty_box sum_key storm plenty).0 ≡ (
          if not (good_key sum_key)
          then bad_key_size
          else if plenty.succeeds plenty.calls
              && (is_ok (get_buf empty_box sum_key) || plenty.succeeds (plenty.calls + 1))
          then 0
          else enomem)))
    ⊎ ((¬ (InRanges storm)) × ((amp_put_datetime empty_box sum_key storm plenty).0 ≡ encode_error))
put_datetime_code_example = put_datetime_code empty_box sum_key storm plenty

abbrev storm_box : Box
storm_box = (put_buf empty_box sum_key storm_text (pos 32) plenty).1

get_datetime_sound_example : invalid storm ≡ false
get_datetime_sound_example =
    get_datetime_sound storm_box sum_key storm (unfold datetime_program in refl)
