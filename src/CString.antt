-- ===== src/CString.antt =====
-- C strings and byte buffers. A `char *` is the list of bytes from the pointer on; a string ends
-- before the first NUL, or at the end of the list, where the terminator stands.
pub mod Laws
use libamp.Common.{
  ℕ, suc, ◌+◌, ◌-◌, ◌*◌, ◌%◌, ◌^◌, Bool, true, false, ◌&&◌, List, [], ◌∷◌, ◌==◌, ltb, if◌then◌else◌,
  length,
}
use Prim.Native.Char.{code}
use Prim.Native.String.{String}

abbrev pub Bytes : Type 0
Bytes = List ℕ

-- The bytes of an ASCII literal.
abbrev pub codes : String → Bytes
codes String.[] = []
codes (String.◌∷◌ c s) = code c ∷ codes s

-- The bytes before the terminator.
unfoldable pub c_str : Bytes → Bytes
c_str [] = []
c_str (c ∷ s) = if c == 0 then [] else c ∷ c_str s

unfoldable pub strlen : Bytes → ℕ
unfolding c_str
strlen s = length (c_str s)

-- `memcmp(a, b, n) == 0` on two buffers of the same length.
unfoldable pub bytes_eq : Bytes → Bytes → Bool
bytes_eq [] [] = true
bytes_eq [] (d ∷ t) = false
bytes_eq (c ∷ s) [] = false
bytes_eq (c ∷ s) (d ∷ t) = c == d && bytes_eq s t

-- `strcmp(a, b) == 0`
unfoldable pub str_eq : Bytes → Bytes → Bool
unfolding c_str bytes_eq
str_eq s t = bytes_eq (c_str s) (c_str t)

-- A byte of a plain `char *`, converted to `unsigned int`: `char` is signed.
abbrev pub char_to_unsigned : ℕ → ℕ
char_to_unsigned c = if ltb c 128 then c else c + 2 ^ 32 - 256

hash_loop : ℕ → Bytes → ℕ
hash_loop hash [] = hash
hash_loop hash (c ∷ s) =
    if c == 0 then hash else hash_loop ((hash * 16 + char_to_unsigned c) % 2 ^ 32) s

-- box.c: `hash = (hash << 4) + str[i]`
unfoldable pub hash_string : Bytes → ℕ
unfolding hash_loop
hash_string = hash_loop 0

responder_loop : ℕ → Bytes → ℕ
responder_loop hash [] = hash
responder_loop hash (c ∷ s) = if c == 0 then hash else responder_loop ((37 * hash + c) % 2 ^ 32) s

-- dispatch.c: `hash = 37 * hash + str[i]`, over unsigned chars
unfoldable pub hash_responder_key : Bytes → ℕ
unfolding responder_loop
hash_responder_key = responder_loop 0
