-- ===== src/Parser/Refine/Agreement.antt =====
-- What a call of amp_parse_box (amp.c) and one round of its loop have to do with the byte machine.
use libamp.Common.{
  ℕ, zero, suc, ◌+◌, ◌-◌, ◌*◌, ◌<◌, ◌≤◌, ◌≡◌, ◌≢◌, refl, arith, true, false, [], length, drop, none,
  some, inl, inr, ◌⊎◌,
}
use libamp.Common.Int.{ℤ, pos, ◌-ℤ◌}
use libamp.CString.{Bytes}
use libamp.Memory.{Memory}
use libamp.Box.{Box}
use libamp.Parser.{
  Parser, ProtocolState, key_len_read, key_data_read, val_len_read, val_data_read, Round, next,
  stop, fault, Parsed,
}
use libamp.Parser.Stage.{Stage, start, Progress, running, complete, failed, after, run}
use libamp.Parser.Represents.{Represents}

-- What a call returns, against the progress of the byte machine over `total` bytes.
abbrev pub Agrees : Parsed → Progress → ℕ → Type 0
Agrees r (running st box m) total =
    Represents r.parser st
    × (r.box ≡ some box)
    × (r.memory ≡ m)
    × (r.full ≡ false)
    × (r.consumed ≡ total)
Agrees r (complete box m n) total =
    Represents r.parser start
    × (r.box ≡ some box)
    × (r.memory ≡ m)
    × (r.full ≡ true)
    × (r.consumed ≡ n)
Agrees r (failed e box m n) total =
    (r.parser.error ≡ e)
    × (e ≢ 0)
    × (r.box ≡ some box)
    × (r.memory ≡ m)
    × (r.full ≡ false)
    × (r.consumed ≡ n)

-- A round in these states may consume no byte.
abbrev pub rank : ProtocolState → ℕ
rank key_len_read = 0
rank key_data_read = 1
rank val_len_read = 0
rank val_data_read = 1

-- A round that goes on has done a part of the run; a round that stops has done all of it.
abbrev pub RoundAgrees : Round → ProtocolState → Progress → Bytes → Type 0
RoundAgrees fault s r buf = ⊥
RoundAgrees (next p none m n) s r buf = ⊥
RoundAgrees (next p (some box) m n) s r buf =
    (st : Stage) × Represents p st
    × (r ≡ after n (run st box m (drop n buf)))
    × (n ≤ length buf)
    × (rank p.state < 2 * n + rank s)
RoundAgrees (stop p box m n full) s r buf =
    Agrees (record { parser = p; box = box; memory = m; consumed = n; full = full }) r (length buf)

pub next_agrees :
    (rd : Round) (s : ProtocolState) (r : Progress) (buf : Bytes) (p : Parser) (box : Box)
    (m : Memory) (n : ℕ) (st : Stage)
    → rd ≡ next p (some box) m n
    → Represents p st
    → r ≡ after n (run st box m (drop n buf))
    → n ≤ length buf
    → rank p.state < 2 * n + rank s
    → RoundAgrees rd s r buf
next_agrees rd s r buf p box m n st e rep same fits falls = rw e (st, rep, same, fits, falls)

pub complete_agrees :
    (rd : Round) (s : ProtocolState) (r : Progress) (buf : Bytes) (p : Parser) (box : Box)
    (m : Memory) (n : ℕ)
    → rd ≡ stop p (some box) m n true
    → Represents p start
    → r ≡ complete box m n
    → RoundAgrees rd s r buf
complete_agrees rd s r buf p box m n e rep same = rw (e, same) (rep, refl, refl, refl, refl)

pub failed_agrees :
    (rd : Round) (s : ProtocolState) (r : Progress) (buf : Bytes) (p : Parser) (box : Box)
    (m : Memory) (n : ℕ)
    → rd ≡ stop p (some box) m n false
    → p.error ≢ 0
    → r ≡ failed p.error box m n
    → RoundAgrees rd s r buf
failed_agrees rd s r buf p box m n e bad same = rw (e, same) (refl, bad, refl, refl, refl, refl)

pub transfer :
    {rd rd' : Round} {st st' : ProtocolState} {r r' : Progress} (buf : Bytes)
    → rd ≡ rd'
    → st ≡ st'
    → r ≡ r'
    → RoundAgrees rd' st' r' buf
    → RoundAgrees rd st r buf
transfer buf e f g agrees = rw (e, f, g) agrees

pub empty_or : (n : ℕ) → (0 < n) ⊎ ((◌≡◌ {A = Bytes} [] []) × (n ≡ 0))
empty_or zero = inr (refl, refl)
empty_or (suc n) = inl (omega arith)

pub needed : (z : ℤ) (n f k : ℕ) → z ≡ pos n → f ≡ k → k ≤ n → z -ℤ pos f ≡ pos (n - k)
unfolding ◌-ℤ◌
needed z n f k e e' h = ground arith
