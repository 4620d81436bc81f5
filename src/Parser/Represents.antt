-- ===== src/Parser/Represents.antt =====
-- How the parsing fields of struct AMP_Proto (amp_internal.h) stand for what has been read, and the
-- writes to its two arrays.
use libamp.Common.{
  ℕ, zero, suc, ◌+◌, ◌*◌, ◌<◌, ◌≤◌, ◌≡◌, refl, ◌∙◌, arith, Bool, true, ◌&&◌, [], ◌∷◌, ◌++◌, length,
  take, drop, ◌==◌, append_assoc, some, length-append, take_all, take-append_short, ◌⊎◌, ==_iff,
  le→leb,
}
use Prim.Native.Nat.{bit_or}
use libamp.Common.Int.{pos, negsuc}
use libamp.CString.{Bytes, c_str}
use libamp.Parser.{
  Parser, key_len_read, key_data_read, val_len_read, val_data_read, memcpy_at, key_data_size,
}
use libamp.Parser.Stage.{Stage, start, zero_read, in_key, at_length, in_length, in_value}

-- No value has been begun.
abbrev NoValue : Parser → Type 0
NoValue p = (p.val_len ≡ negsuc 0) × (p.val_data_fetched ≡ 0)

-- The first bytes of an array are those of `bs`.
abbrev pub Holds : Bytes → Bytes → Type 0
Holds array bs = (take (length bs) array ≡ bs) × (length bs ≤ length array)

-- A whole key is in the array, with its terminator.
abbrev HasKey : Parser → Bytes → Type 0
HasKey p key = c_str p.key_data ≡ c_str key

-- The parser stands for the stage, and no error is set.
abbrev pub Represents : Parser → Stage → Type 0
Represents p start =
    (p.state ≡ key_len_read)
    × (p.key_len ≡ negsuc 0)
    × (p.key_data_fetched ≡ 0)
    × NoValue p
    × (p.error ≡ 0)
Represents p zero_read =
    (p.state ≡ key_len_read)
    × (p.key_len ≡ pos 0)
    × (p.key_data_fetched ≡ 0)
    × NoValue p
    × (p.error ≡ 0)
Represents p (in_key n ks) =
    (p.state ≡ key_data_read)
    × (p.key_len ≡ pos n)
    × (p.key_data_fetched ≡ length ks)
    × Holds p.key_data ks
    × (length ks < n)
    × (n < 256)
    × NoValue p
    × (p.error ≡ 0)
Represents p (at_length key) = (p.state ≡ val_len_read) × HasKey p key × NoValue p × (p.error ≡ 0)
Represents p (in_length key high) =
    (p.state ≡ val_len_read)
    × HasKey p key
    × (p.val_len ≡ pos (high * 256))
    × (high < 256)
    × (p.val_data_fetched ≡ 0)
    × (p.error ≡ 0)
Represents p (in_value key n vs) =
    (p.state ≡ val_data_read)
    × HasKey p key
    × (p.val_len ≡ pos n)
    × (n < 65536)
    × (p.val_data_fetched ≡ length vs)
    × Holds p.val_data vs
    × ((length vs < n) ⊎ ((vs ≡ []) × (n ≡ 0)))
    × (p.error ≡ 0)

pub Represents-error : (p : Parser) (st : Stage) → Represents p st → p.error ≡ 0
Represents-error p start rep = rep.4
Represents-error p zero_read rep = rep.4
Represents-error p (in_key n ks) rep = rep.7
Represents-error p (at_length key) rep = rep.3
Represents-error p (in_length key high) rep = rep.5
Represents-error p (in_value key n vs) rep = rep.7

-- A write behind the bytes `ks`, within the array, succeeds, and leaves `ks` with the new bytes
-- behind it.
pub memcpy_behind :
    (size : ℕ) (array ks xs : Bytes)
    → length ks + length xs ≤ size
    → Holds array ks
    → (d : Bytes) × (memcpy_at size array (length ks) xs ≡ some d) × Holds d (ks ++ xs)
unfolding memcpy_at
memcpy_behind size array ks xs fits (same, long) =
    let n = length ks in
    let rest = drop (n + length xs) array in
    (
      take n array ++ (xs ++ rest),
      rw (le→leb (n + length xs) size fits, le→leb n (length array) long),
      rw (same, ← append_assoc ks xs rest)
          (
            take-append_short (length (ks ++ xs)) (ks ++ xs) rest (omega arith)
                ∙ take_all (length (ks ++ xs)) (ks ++ xs) (omega arith),
            omega (arith, length-append (ks ++ xs) rest, length-append ks xs),
          ),
    )

c_str-append_nul : (key rest : Bytes) → c_str (key ++ 0 ∷ rest) ≡ c_str key
unfolding c_str
c_str-append_nul [] rest = refl
c_str-append_nul (c ∷ key) rest = ground (arith, c_str-append_nul key rest)

-- The terminator is written behind the key.
pub memcpy_nul :
    (array key : Bytes)
    → length key < key_data_size
    → Holds array key
    → (d : Bytes) × (memcpy_at key_data_size array (length key) (0 ∷ []) ≡ some d)
      × (c_str d ≡ c_str key)
unfolding memcpy_at
memcpy_nul array key fits (same, long) =
    let n = length key in
    (
      take n array ++ (0 ∷ drop (n + 1) array),
      rw (le→leb (n + 1) key_data_size (omega arith), le→leb n (length array) long),
      rw same (c_str-append_nul key (drop (n + 1) array)),
    )

-- A test of all bytes up to a bound, by evaluation.
every : (ℕ → Bool) → ℕ → Bool
every test zero = true
every test (suc bound) = every test bound && test bound

every_at : (test : ℕ → Bool) (bound c : ℕ) → c < bound → every test bound ≡ true → test c ≡ true
unfolding every
every_at test zero c small passed = absurd (omega arith)
every_at test (suc bound) c small passed = ground (arith, every_at test bound c)

or_row : ℕ → Bool
unfolding every
or_row high = every (λ low. bit_or (high * 256) low == high * 256 + low) 256

or_table : every or_row 256 ≡ true
unfolding every or_row
or_table = refl

-- The bitwise OR of the two length bytes is their sum.
pub bit_or-add :
    (high low : ℕ) → high < 256 → low < 256 → bit_or (high * 256) low ≡ high * 256 + low
bit_or-add high low h l = (==_iff _ _).0 (
    every_at (λ c. bit_or (high * 256) c == high * 256 + c) 256 low l
      (unfold or_row in every_at or_row 256 high h or_table))
