-- ===== src/Buftoll.antt =====
-- buftoll and buftoll_range (buftoll.c): decimal text to a `long long`. The pointer and the size are
-- the list of the bytes between them.
pub mod Magnitude
pub mod Correct
use libamp.Common.{
  ℕ, suc, ◌+◌, ◌-◌, ◌*◌, ◌/◌, ◌%◌, ◌^◌, Bool, true, false, ◌&&◌, ◌||◌, List, [], ◌∷◌, leb, ltb,
  ◌==◌, if◌then◌else◌,
}
use libamp.Common.Int.{ℤ, pos, negsuc, c_div, c_rem, ◌+ℤ◌, ◌-ℤ◌, ◌*ℤ◌, ltb_ℤ, eqb_ℤ}
use libamp.CString.{Bytes}
use libamp.Errors.{Result, ok, err, decode_error, out_of_range}

abbrev pub llong_max : ℤ
llong_max = pos (2 ^ 63 - 1)

abbrev pub llong_min : ℤ
llong_min = negsuc (2 ^ 63 - 1)

-- `cutoff = neg ? LLONG_MIN : LLONG_MAX`, before it is divided by the base.
abbrev limit_of : Bool → ℤ
limit_of neg = if neg then llong_min else llong_max

unfoldable pub cutoff : Bool → ℤ
cutoff neg = c_div (limit_of neg) 10

unfoldable pub cutlim : Bool → ℤ
unfolding ◌-ℤ◌
cutlim neg = let rem = c_rem (limit_of neg) 10 in if neg then pos 0 -ℤ rem else rem

-- isdigit, in the C locale.
abbrev pub is_digit : ℕ → Bool
is_digit c = leb b'0' c && leb c b'9'

-- The test that an accumulated value is too big for one more digit.
unfoldable pub too_big : Bool → ℤ → ℕ → Bool
unfolding cutoff cutlim
too_big neg acc c =
    if neg
    then ltb_ℤ acc (cutoff neg) || (eqb_ℤ acc (cutoff neg) && ltb_ℤ (cutlim neg) (pos c))
    else ltb_ℤ (cutoff neg) acc || (eqb_ℤ acc (cutoff neg) && ltb_ℤ (cutlim neg) (pos c))

-- `acc *= base; acc -= c;` or `acc += c;`
unfoldable pub add_digit : Bool → ℤ → ℕ → ℤ
unfolding ◌+ℤ◌ ◌-ℤ◌ ◌*ℤ◌
add_digit neg acc c = if neg then acc *ℤ pos 10 -ℤ pos c else acc *ℤ pos 10 +ℤ pos c

-- The loop over the digits, and the return behind it.
unfoldable pub digits_loop : Bool → ℤ → Bool → Bytes → Result ℤ
digits_loop neg acc any [] = if any then ok acc else err decode_error
digits_loop neg acc any (b ∷ s) =
    let c = b - b'0' in
    let rest = digits_loop neg (add_digit neg acc c) true s in
    if is_digit b then if too_big neg acc c then err out_of_range else rest else err decode_error

unfoldable pub buftoll : Bytes → Result ℤ
buftoll [] = err decode_error
buftoll (c ∷ s) =
    if c == b'+'
    then digits_loop false (pos 0) false s
    else if c == b'-'
    then digits_loop true (pos 0) false s
    else digits_loop false (pos 0) false (c ∷ s)

unfoldable pub buftoll_range : Bytes → ℤ → ℤ → Result ℤ
buftoll_range nptr minval maxval = elim (buftoll nptr) [
  | err e ↦ err e
  | ok value ↦ if ltb_ℤ value minval || ltb_ℤ maxval value then err out_of_range else ok value
]
