-- ===== src/Parser/Refine/Rounds.antt =====
-- One round of the loop of amp_parse_box (amp.c) against the byte machine.
use libamp.Common.{ℕ, ◌-◌, ◌<◌, arith, ◌∷◌, length, some, Bool-cases, inl, inr, ltb}
use libamp.CString.{Bytes}
use libamp.Memory.{Memory}
use libamp.Box.{Box}
use libamp.Parser.{Parser, round}
use libamp.Parser.Stage.{Stage, start, zero_read, in_key, at_length, in_length, in_value, run}
use libamp.Parser.Represents.{Represents}
use libamp.Parser.Refine.Agreement.{RoundAgrees}
use libamp.Parser.Refine.Lengths.{
  start_agrees, zero_read_agrees, at_length_agrees, in_length_agrees,
}
use libamp.Parser.Refine.KeyData.{in_key_part, in_key_end}
use libamp.Parser.Refine.ValData.{in_value_part, in_value_end}

module _ (p : Parser) (box : Box) (m : Memory) (c : ℕ) (s : Bytes) (byte : c < 256) where
  -- Every round agrees with the byte machine; in particular it is no fault.
  pub round_agrees :
      (st : Stage)
      → Represents p st
      → RoundAgrees (round p.state p (some box) m c s) p.state (run st box m (c ∷ s)) (c ∷ s)
  round_agrees start rep = start_agrees p box m c s byte rep
  round_agrees zero_read rep = zero_read_agrees p box m c s byte rep
  round_agrees (in_key n ks) rep = elim (Bool-cases (ltb (length (c ∷ s)) (n - length ks))) [
    | inl part ↦ in_key_part p box m c s byte n ks rep (ground arith)
    | inr whole ↦ in_key_end p box m c s byte n ks rep (ground arith)
  ]
  round_agrees (at_length key) rep = at_length_agrees p box m c s byte key rep
  round_agrees (in_length key high) rep = in_length_agrees p box m c s byte key high rep
  round_agrees (in_value key n vs) rep = elim (Bool-cases (ltb (length (c ∷ s)) (n - length vs))) [
    | inl part ↦ in_value_part p box m c s byte key n vs rep (ground arith)
    | inr whole ↦ in_value_end p box m c s byte key n vs rep (ground arith)
  ]
