-- ===== src/Tests/DoubleTests.antt =====
-- The theorems on doubles, with thousandths for numbers.
use libamp.Common.{
  ℕ, ◌+◌, ◌-◌, ◌*◌, ◌/◌, ◌%◌, ◌≡◌, refl, arith, false, [], ◌∷◌, ◌++◌, some, take, ◌==◌,
}
use libamp.Common.Int.{pos, pos_part}
use libamp.CString.{Bytes, codes}
use libamp.Memory.{Memory}
use libamp.Errors.{ok}
use libamp.Box.{Box, empty_box, get_buf, put_buf}
use libamp.Box.Valid.{empty_box-IsValid}
use libamp.Buftoll.Correct.{no_sign}
use libamp.Types.Decimal.{decimal, show_ℕ}
use libamp.Types.DateTime.{show_padded}
use libamp.Types.Double.{
  Arithmetic, amp_put_double, amp_get_double, read_double, read_digits, double_loop, read_char,
}
use libamp.Types.Double.Laws.{Numeral, read_back, get_double-put}
use libamp.Types.Double.Sound.{Accepted, get_double_sound}
use libamp.Tests.Samples.{plenty, sum_key, box_program}

abbrev thousandths : Arithmetic ℕ
thousandths = record {
  zero_point = 0;
  one_tenth = 100;
  infinity = 1000000000;
  nan = 2000000000;
  of_int = λ n. pos_part n * 1000;
  add = λ a b. a + b;
  sub = λ a b. a - b;
  mul = λ a b. a * b / 1000;
  div = λ a b. a * 1000 / b;
  is_nan = λ a. a == 2000000000;
  is_inf = λ a. a == 1000000000;
  sign_bit = λ a. false;
  print = λ a. show_ℕ (a / 1000) ++ b'.' ∷ show_padded 3 (pos (a % 1000));
}

abbrev one_and_a_half : Numeral
one_and_a_half = record { sign = no_sign; first = b'1'; whole = []; fraction = some (codes "500") }

double_program : Unit {0}
unfolding box_program decimal show_ℕ show_padded amp_put_double amp_get_double read_double
    read_digits double_loop read_char
double_program = tt

abbrev stored : ℕ × Box × Memory
stored = put_buf empty_box sum_key (codes "1.500" ++ 0 ∷ []) (pos 5) plenty

get_double-put_example :
    amp_get_double thousandths stored.1 sum_key ≡ ok (read_back thousandths 1500 one_and_a_half)
get_double-put_example =
    get_double-put thousandths empty_box sum_key 1500 plenty one_and_a_half stored empty_box-IsValid
      (omega arith) (unfold double_program in λ a b. refl) (unfold double_program in omega arith)
      (unfold double_program in refl) (unfold double_program in refl)

get_double_sound_example :
    (s : Bytes) × (size : ℕ) × (get_buf stored.1 sum_key ≡ ok (s, size))
    × Accepted thousandths (take size s) 1500
get_double_sound_example =
    get_double_sound thousandths stored.1 sum_key 1500 (unfold double_program in refl)
