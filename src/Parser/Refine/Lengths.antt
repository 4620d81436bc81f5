-- ===== src/Parser/Refine/Lengths.antt =====
-- The rounds of amp_parse_box (amp.c) that read the two bytes of a length.
use libamp.Common.{ℕ, ◌+◌, ◌*◌, ◌<◌, refl, arith, [], ◌∷◌, ◌==◌, some, Bool-cases, inl, inr}
use libamp.Common.Int.{pos, negsuc}
use libamp.CString.{Bytes}
use libamp.Memory.{Memory}
use libamp.Errors.{bad_key_size}
use libamp.Box.{Box}
use libamp.Parser.{
  Parser, key_len_read, key_data_read, val_data_read, round, key_len_round, val_len_round,
}
use libamp.Parser.Stage.{
  start, zero_read, in_key, at_length, in_length, in_value, open_key, feed, run,
}
use libamp.Parser.Run.{run_step, run_complete, run_failed}
use libamp.Parser.Represents.{Represents, bit_or-add}
use libamp.Parser.Refine.Agreement.{
  RoundAgrees, next_agrees, complete_agrees, failed_agrees, empty_or,
}

module _ (p : Parser) (box : Box) (m : Memory) (c : ℕ) (s : Bytes) (byte : c < 256) where
  pub start_agrees :
      Represents p start
      → RoundAgrees (round p.state p (some box) m c s) p.state (run start box m (c ∷ s)) (c ∷ s)
  unfolding round key_len_round feed open_key
  start_agrees (state, key_len, fetched, (no_len, no_value), clean) = elim (Bool-cases (c == 0)) [
    | inl e ↦
        next_agrees _ p.state _ (c ∷ s) (record p { key_len = pos 0 }) box m 1 zero_read
          (ground arith) (state, refl, fetched, (no_len, no_value), clean)
          (run_step start zero_read box m c s (ground arith)) (omega arith) (ground arith)
    | inr e ↦
        failed_agrees _ p.state _ (c ∷ s) (record p { error = bad_key_size }) box m 1 (ground arith)
          (omega arith) (run_failed start box box m m c 1 bad_key_size s (ground arith))
  ]

  pub zero_read_agrees :
      Represents p zero_read
      → RoundAgrees (round p.state p (some box) m c s) p.state (run zero_read box m (c ∷ s)) (c ∷ s)
  unfolding round key_len_round feed
  zero_read_agrees (state, key_len, fetched, (no_len, no_value), clean) =
      elim (Bool-cases (c == 0)) [
        | inl e ↦
            complete_agrees _ p.state _ (c ∷ s)
              (record p { key_len = negsuc 0; state = key_len_read }) box m 1 (ground arith)
              (refl, refl, fetched, (no_len, no_value), clean)
              (run_complete zero_read box box m m c 1 s (ground arith))
        | inr e ↦
            next_agrees _ p.state _ (c ∷ s) (record p { key_len = pos c; state = key_data_read })
              box m 1 (in_key c []) (ground arith)
              (
                refl,
                refl,
                fetched,
                (refl, omega arith),
                ground arith,
                byte,
                (no_len, no_value),
                clean,
              )
              (run_step zero_read (in_key c []) box m c s (ground arith)) (omega arith)
              (ground arith)
      ]

  pub at_length_agrees :
      (key : Bytes)
      → Represents p (at_length key)
      → RoundAgrees
          (round p.state p (some box) m c s)
          p.state
          (run (at_length key) box m (c ∷ s))
          (c ∷ s)
  unfolding round val_len_round feed
  at_length_agrees key (state, has, (no_len, no_value), clean) =
      next_agrees _ p.state _ (c ∷ s) (record p { val_len = pos (c * 256) }) box m 1
        (in_length key c) (ground arith) (state, has, refl, byte, no_value, clean)
        (run_step (at_length key) (in_length key c) box m c s refl) (omega arith) (ground arith)

  pub in_length_agrees :
      (key : Bytes) (high : ℕ)
      → Represents p (in_length key high)
      → RoundAgrees
          (round p.state p (some box) m c s)
          p.state
          (run (in_length key high) box m (c ∷ s))
          (c ∷ s)
  unfolding round val_len_round feed
  in_length_agrees key high (state, has, val_len, small, no_value, clean) =
      next_agrees _ p.state _ (c ∷ s)
        (record p { val_len = pos (high * 256 + c); state = val_data_read }) box m 1
        (in_value key (high * 256 + c) []) (ground (arith, bit_or-add high c small byte))
        (
          refl,
          has,
          refl,
          omega arith,
          no_value,
          (refl, omega arith),
          empty_or (high * 256 + c),
          clean,
        )
        (run_step (in_length key high) (in_value key (high * 256 + c) []) box m c s refl)
        (omega arith) (ground arith)
