-- ===== src/Parser/Refine.antt =====
-- amp_parse_box (amp.c) implements the byte machine.
pub mod Agreement
pub mod Lengths
pub mod KeyData
pub mod ValData
pub mod Rounds
use libamp.Common.{
  ℕ, zero, suc, ◌+◌, ◌-◌, ◌*◌, ◌<◌, ◌≤◌, ◌≡◌, ◌≢◌, refl, sym, ap, ◌∙◌, arith, Bool, true, false,
  List, [], ◌∷◌, ◌++◌, length, drop, Option, none, some, All, length-drop,
}
use libamp.CString.{Bytes}
use libamp.Memory.{Memory}
use libamp.Box.{Box}
use libamp.Parser.{
  Parser, ProtocolState, key_len_read, key_data_read, val_len_read, val_data_read, Round, next,
  stop, fault, round, Parsed, parse_loop, amp_parse_box,
}
use libamp.Parser.Stage.{
  Stage, start, zero_read, in_key, at_length, in_length, in_value, Progress, running, complete,
  failed, feed, after, run,
}
use libamp.Parser.Run.{after_zero, after-after}
use libamp.Parser.Represents.{Represents}
use libamp.Parser.Refine.Agreement.{Agrees, RoundAgrees, rank}
use libamp.Parser.Refine.Rounds.{round_agrees}

-- The loop goes on where a round left off.
Agrees-after :
    (r : Parsed) (pr : Progress) (idx n total rest sum : ℕ)
    → sum ≡ idx + n
    → total ≡ n + rest
    → Agrees r (after sum pr) (sum + rest)
    → Agrees r (after idx (after n pr)) (idx + total)
Agrees-after r pr idx n total rest sum e f h =
    let sizes : sum + rest ≡ idx + total = omega arith in rw (after-after idx n sum pr e, ← sizes) h

pub All-drop : (n : ℕ) (buf : Bytes) → All (λ c. c < 256) buf → All (λ c. c < 256) (drop n buf)
All-drop zero buf h = h
All-drop (suc n) [] h = tt
All-drop (suc n) (c ∷ s) h = All-drop n s h.1

shifted_Agrees :
    (r : Parsed) (idx k : ℕ) (pr : Progress) (total : ℕ)
    → k ≡ idx + r.consumed
    → Agrees r pr total
    → Agrees (record r { consumed = k }) (after idx pr) (idx + total)
unfolding after
shifted_Agrees r idx k (running st box m) total e (rep, b, mm, f, c) = (rep, b, mm, f, omega arith)
shifted_Agrees r idx k (complete box m n) total e (rep, b, mm, f, c) = (rep, b, mm, f, omega arith)
shifted_Agrees r idx k (failed x box m n) total e (same, bad, b, mm, f, c) =
    (same, bad, b, mm, f, omega arith)

-- What the loop returns agrees with the run.
LoopAgrees : ℕ → Parser → Box → Memory → Bytes → ℕ → Stage → Type 0
LoopAgrees fuel p box m buf idx st =
    (r : Parsed) × (parse_loop fuel p (some box) m buf idx ≡ some r)
    × Agrees r (after idx (run st box m buf)) (idx + length buf)

-- The loop after its first round.
loop_round :
    (fuel : ℕ) (p : Parser) (box : Box) (m : Memory) (c : ℕ) (s : Bytes) (idx : ℕ) (pr : Progress)
    → ((st : Stage) (p' : Parser) (box' : Box) (m' : Memory) (n : ℕ)
        → Represents p' st
        → n ≤ length (c ∷ s)
        → rank p'.state < 2 * n + rank p.state
        → LoopAgrees fuel p' box' m' (drop n (c ∷ s)) (idx + n) st)
    → (rd : Round) → round p.state p (some box) m c s ≡ rd
    → RoundAgrees rd p.state pr (c ∷ s)
    → (r : Parsed) × (parse_loop (suc fuel) p (some box) m (c ∷ s) idx ≡ some r)
      × Agrees r (after idx pr) (idx + length (c ∷ s))
unfolding LoopAgrees parse_loop
loop_round fuel p box m c s idx pr ih fault e h = absurd h
loop_round fuel p box m c s idx pr ih (next p' none m' n) e h = absurd h
loop_round fuel p box m c s idx pr ih (next p' (some box') m' n) e (st, rep, same, fits, falls) =
    let (r, ran, agrees) = ih st p' box' m' n rep fits falls in
    let left : length (c ∷ s) ≡ n + length (drop n (c ∷ s)) =
      omega (arith, length-drop n (c ∷ s)) in
    (
      r,
      rw (e, parse_loop) ran,
      rw same (
          Agrees-after r (run st box' m' (drop n (c ∷ s))) idx n (length (c ∷ s))
            (length (drop n (c ∷ s))) (idx + n) refl left agrees),
    )
loop_round fuel p box m c s idx pr ih (stop p' box' m' n full) e h = (
  record { parser = p'; box = box'; memory = m'; consumed = idx + n; full = full },
  rw (e, parse_loop),
  shifted_Agrees (record { parser = p'; box = box'; memory = m'; consumed = n; full = full }) idx
      (idx + n) pr (length (c ∷ s)) refl h,
)

loop_agrees :
    (fuel : ℕ) (p : Parser) (box : Box) (m : Memory) (buf : Bytes) (idx : ℕ) (st : Stage)
    → Represents p st
    → All (λ c. c < 256) buf
    → 2 * length buf + rank p.state < fuel
    → LoopAgrees fuel p box m buf idx st
unfolding LoopAgrees parse_loop run after
loop_agrees zero p box m buf idx st rep bytes enough = absurd (omega arith)
loop_agrees (suc fuel) p box m [] idx st rep bytes enough = (
  record { parser = p; box = some box; memory = m; consumed = idx; full = false },
  refl,
  (rep, refl, refl, refl, omega arith),
)
loop_agrees (suc fuel) p box m (c ∷ s) idx st rep bytes enough =
    loop_round fuel p box m c s idx (run st box m (c ∷ s))
      (λ st' p' box' m' n rep' fits falls.
        loop_agrees fuel p' box' m' (drop n (c ∷ s)) (idx + n) st' rep' (All-drop n (c ∷ s) bytes)
          (omega (arith, length-drop n (c ∷ s))))
      _ refl (round_agrees p box m c s bytes.0 st rep)

rank-le : (s : ProtocolState) → rank s ≤ 1
rank-le key_len_read = omega arith
rank-le key_data_read = omega arith
rank-le val_len_read = omega arith
rank-le val_data_read = omega arith

-- From fields that stand for what has been read, over any bytes, amp_parse_box ends without a fault:
-- no write leaves `key_data` or `val_data`, and no length given to memcpy is negative. It does what
-- the byte machine does: its box, memory, returned value, `*bytesConsumed` and error are those of the
-- run, and its fields stand for what the run has read, or for nothing at the end of a box.
pub parse_box_refines :
    (p : Parser) (box : Box) (m : Memory) (buf : Bytes) (st : Stage)
    → Represents p st
    → All (λ c. c < 256) buf
    → (r : Parsed) × (amp_parse_box p (some box) m buf ≡ some r)
      × Agrees r (run st box m buf) (length buf)
unfolding amp_parse_box LoopAgrees
parse_box_refines p box m buf st rep bytes =
    let (r, ran, agrees) =
      loop_agrees (2 * length buf + 2) p box m buf 0 st rep bytes
        (omega (arith, rank-le p.state)) in
    let zero_total : 0 + length buf ≡ length buf = omega arith in
    (r, ran, rw zero_total at (rw after_zero at agrees))
