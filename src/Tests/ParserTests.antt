-- ===== src/Tests/ParserTests.antt =====
-- The theorems on amp_parse_box, at the wire form of the sample box.
use libamp.Common.{◌+◌, ◌≡◌, refl, true, false, [], ◌∷◌, ◌++◌, some, arith, All, length}
use libamp.Common.Int.{pos, ◌-ℤ◌}
use libamp.CString.{Bytes}
use libamp.Memory.{malloc}
use libamp.Box.{Box, empty_box, get_buf}
use libamp.Parser.{
  Parsed, amp_parse_box, parse_loop, round, key_len_round, key_data_round, val_len_round,
  val_data_round, store_pair, memcpy_at, key_data_read,
}
use libamp.Parser.Stage.{start, run}
use libamp.Parser.Represents.{Represents}
use libamp.Parser.Refine.{parse_box_refines}
use libamp.Parser.Refine.Agreement.{Agrees}
use libamp.Parser.RoundTrip.{parse-serialize}
use libamp.Box.Octets.{IsBytes}
use libamp.Parser.Chunks.{parse_chunks}
use libamp.Connection.{new_parser}
use libamp.Tests.Samples.{plenty, sample_box, sample_box-IsValid, box_program}

abbrev sample_bytes : Bytes
sample_bytes = 0 ∷ 3 ∷ b's' ∷ b'u' ∷ b'm' ∷ 0 ∷ 2 ∷ b'4' ∷ b'2' ∷ 0 ∷ 0 ∷ []

abbrev first_piece : Bytes
first_piece = 0 ∷ 3 ∷ b's' ∷ []

abbrev second_piece : Bytes
second_piece = b'u' ∷ b'm' ∷ 0 ∷ 2 ∷ b'4' ∷ b'2' ∷ 0 ∷ 0 ∷ []

at_start : Represents new_parser start
at_start = (refl, refl, refl, (refl, refl), refl)

parse_box_refines_example :
    (r : Parsed) × (amp_parse_box new_parser (some empty_box) plenty sample_bytes ≡ some r)
    × Agrees r (run start empty_box plenty sample_bytes) (length sample_bytes)
parse_box_refines_example =
    parse_box_refines new_parser empty_box plenty sample_bytes start at_start (omega arith)

sample_box-IsBytes : All (All IsBytes) sample_box.buckets
unfolding box_program sample_box
sample_box-IsBytes = omega arith

parse-serialize_example :
    (r : Parsed) × (copy : Box) × (amp_parse_box new_parser
        (some empty_box)
        (malloc plenty).1
        sample_bytes
      ≡ some r)
    × (r.full ≡ true)
    × (r.consumed ≡ 11)
    × (r.box ≡ some copy)
    × Represents r.parser start
    × ((j : Bytes) → get_buf copy j ≡ get_buf sample_box j)
parse-serialize_example =
    parse-serialize sample_box plenty (malloc plenty).1 new_parser sample_bytes 11
      sample_box-IsValid sample_box-IsBytes (unfold malloc in λ n. refl) at_start
      (unfold box_program sample_box in refl)

-- The whole run of a parser over the bytes of two calls.
parser_program : Unit {0}
unfolding box_program amp_parse_box parse_loop round key_len_round key_data_round val_len_round
    val_data_round store_pair memcpy_at ◌-ℤ◌
parser_program = tt

abbrev after_first : Parsed
after_first = record {
  parser = record new_parser {
    state = key_data_read;
    key_len = pos 3;
    key_data = b's' ∷ [];
    key_data_fetched = 1;
  };
  box = some empty_box;
  memory = plenty;
  consumed = 3;
  full = false;
}

parse_chunks_example :
    (second whole : Parsed) × (amp_parse_box after_first.parser (some empty_box) plenty second_piece
      ≡ some second)
    × (amp_parse_box new_parser (some empty_box) plenty (first_piece ++ second_piece) ≡ some whole)
    × (whole.full ≡ second.full)
    × (whole.box ≡ second.box)
    × (whole.memory ≡ second.memory)
    × (whole.parser.error ≡ second.parser.error)
    × (whole.consumed ≡ length first_piece + second.consumed)
parse_chunks_example =
    parse_chunks new_parser start empty_box plenty first_piece second_piece after_first at_start
      (omega arith) (omega arith) (unfold parser_program in refl) refl refl
