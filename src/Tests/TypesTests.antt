-- ===== src/Tests/TypesTests.antt =====
-- The theorems on buftoll and on the typed access to boxes, at sample values.
use libamp.Common.{◌≡◌, ◌≢◌, ◌≤◌, refl, arith, if◌then◌else◌, ltb, [], ◌∷◌, ◌++◌, All}
use libamp.Common.Int.{negsuc, signed, ◌-ℤ◌, ◌+ℤ◌, ◌*ℤ◌}
use libamp.CString.{Bytes, codes}
use libamp.Errors.{ok, err, out_of_range}
use libamp.Box.{empty_box}
use libamp.Box.Valid.{empty_box-IsValid}
use libamp.Buftoll.{buftoll, digits_loop, cutoff, cutlim, too_big, add_digit}
use libamp.Buftoll.Magnitude.{limit}
use libamp.Buftoll.Correct.{
  IsDigit, value, Sign, minus, sign_bytes, is_minus, buftoll-digits, buftoll_sound,
}
use libamp.Types.{
  amp_put_int, amp_get_int, amp_put_uint, amp_get_uint, amp_put_long_long, amp_get_long_long,
  amp_put_bool, amp_get_bool,
}
use libamp.Types.Decimal.{decimal, show_ℕ, show_ℤ}
use libamp.Types.Integers.{get_long_long-put}
use libamp.Tests.Samples.{plenty, sum_key, box_program}

-- One more than LLONG_MIN allows.
abbrev too_small : Bytes
too_small = codes "223372036854775809"

buftoll-digits_example : buftoll (sign_bytes minus ++ b'9' ∷ too_small) ≡ (
    if ltb (limit (is_minus minus)) (value (b'9' ∷ too_small))
    then err out_of_range
    else ok (signed (is_minus minus) (value (b'9' ∷ too_small))))
buftoll-digits_example = buftoll-digits minus b'9' too_small (omega arith) (omega arith)

types_program : Unit {0}
unfolding box_program buftoll digits_loop cutoff cutlim too_big add_digit ◌-ℤ◌ ◌+ℤ◌ ◌*ℤ◌ decimal
    show_ℕ show_ℤ amp_put_int amp_get_int amp_put_uint amp_get_uint amp_put_long_long
    amp_get_long_long amp_put_bool amp_get_bool
types_program = tt

buftoll_sound_example :
    (σ : Sign) × (digits : Bytes) × (codes "-12" ≡ sign_bytes σ ++ digits)
    × (digits ≢ [])
    × All IsDigit digits
    × (negsuc 11 ≡ signed (is_minus σ) (value digits))
    × (value digits ≤ limit (is_minus σ))
buftoll_sound_example = buftoll_sound (codes "-12") (negsuc 11) (unfold types_program in refl)

get_long_long-put_example :
    amp_get_long_long
      (amp_put_long_long empty_box sum_key (negsuc 9223372036854775807) plenty).1
      sum_key
    ≡ ok (negsuc 9223372036854775807)
get_long_long-put_example =
    get_long_long-put empty_box sum_key (negsuc 9223372036854775807) plenty (omega arith)
      empty_box-IsValid (unfold types_program in refl)
