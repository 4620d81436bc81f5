-- ===== src/Parser/Chunks.antt =====
-- The bytes of a connection come in any pieces: amp_parse_box (amp.c) goes on where it left off.
use libamp.Common.{
  ℕ, ◌+◌, ◌<◌, ◌≡◌, refl, sym, ◌∙◌, arith, false, ◌++◌, length, some, All, length-append, subst,
}
use libamp.CString.{Bytes}
use libamp.Memory.{Memory}
use libamp.Hashing.Buckets.{All-append}
use libamp.Box.{Box}
use libamp.Parser.{Parser, Parsed, amp_parse_box}
use libamp.Parser.Stage.{Stage, start, Progress, running, complete, failed, after, run}
use libamp.Parser.Run.{resume, run-append}
use libamp.Parser.Represents.{Represents, Represents-error}
use libamp.Parser.Refine.{parse_box_refines}
use libamp.Parser.Refine.Agreement.{Agrees}

-- A call that ends with no full box and no error has stopped inside a box.
inside :
    (r : Parsed) (pr : Progress) (total : ℕ)
    → Agrees r pr total
    → r.full ≡ false
    → r.parser.error ≡ 0
    → (st : Stage) × (box : Box) × (m : Memory) × (pr ≡ running st box m)
      × Represents r.parser st
      × (r.box ≡ some box)
      × (r.memory ≡ m)
inside r (running st box m) total (rep, b, mm, f, c) h k = (st, box, m, refl, rep, b, mm)
inside r (complete box m n) total (rep, b, mm, f, c) h k = absurd (cc)
inside r (failed e box m n) total (same, bad, b, mm, f, c) h k = absurd (bad (sym same ∙ k))

-- Two calls have the same effect, but that the second's bytes are `n` more.
SameEffect : Parsed → Parsed → ℕ → Type 0
SameEffect r r' n =
    (r'.full ≡ r.full)
    × (r'.box ≡ r.box)
    × (r'.memory ≡ r.memory)
    × (r'.parser.error ≡ r.parser.error)
    × (r'.consumed ≡ n + r.consumed)

same_effect :
    (r r' : Parsed) (pr : Progress) (n total : ℕ)
    → Agrees r pr total
    → Agrees r' (after n pr) (n + total)
    → SameEffect r r' n
unfolding after SameEffect
same_effect r r' (running st box m) n total (rep, b, mm, f, c) (rep', b', mm', f', c') = (
  f' ∙ sym f,
  b' ∙ sym b,
  mm' ∙ sym mm,
  Represents-error r'.parser st rep' ∙ sym (Represents-error r.parser st rep),
  omega arith,
)
same_effect r r' (complete box m k) n total (rep, b, mm, f, c) (rep', b', mm', f', c') = (
  f' ∙ sym f,
  b' ∙ sym b,
  mm' ∙ sym mm,
  Represents-error r'.parser start rep' ∙ sym (Represents-error r.parser start rep),
  omega arith,
)
same_effect r r' (failed e box m k) n total (s, bad, b, mm, f, c) (s', bad', b', mm', f', c') =
    (f' ∙ sym f, b' ∙ sym b, mm' ∙ sym mm, s' ∙ sym s, omega arith)

resume_running :
    (pr : Progress) (st : Stage) (box : Box) (m : Memory) (n : ℕ) (b : Bytes)
    → pr ≡ running st box m
    → resume pr n b ≡ after n (run st box m b)
unfolding resume
resume_running pr st box m n b e = rw (e, resume)

-- The second call, from where the first has stopped.
second_call :
    (p q : Parser) (st st' : Stage) (box box' : Box) (m m' : Memory) (a b : Bytes)
    → Represents p st
    → Represents q st'
    → All (λ c. c < 256) a
    → All (λ c. c < 256) b
    → run st box m a ≡ running st' box' m'
    → (second whole : Parsed) × (amp_parse_box q (some box') m' b ≡ some second)
      × (amp_parse_box p (some box) m (a ++ b) ≡ some whole)
      × SameEffect second whole (length a)
second_call p q st st' box box' m m' a b rep rep' ha hb went =
    let (r₂, ran₂, agrees₂) = parse_box_refines q box' m' b st' rep' hb in
    let (r₃, ran₃, agrees₃) =
      parse_box_refines p box m (a ++ b) st rep (All-append (λ c. c < 256) a b ha hb) in
    let goes_on =
      run-append st box m a b ∙ resume_running (run st box m a) st' box' m' (length a) b went in
    (
      r₂,
      r₃,
      ran₂,
      ran₃,
      same_effect r₂ r₃ (run st' box' m' b) (length a) (length b) agrees₂ (
          subst (λ t. Agrees r₃ (after (length a) (run st' box' m' b)) t) (length-append a b)
            (subst (λ pr. Agrees r₃ pr (length (a ++ b))) goes_on agrees₃)),
    )

-- For parsing fields that stand for a stage of the parser, a box that is not NULL and two lists of
-- byte values: if amp_parse_box over the bytes `a` finds neither the end of a box nor an error, then a second
-- call over `b`, with the fields, the box and the memory that the first left, returns what one call
-- over all the bytes returns, with the same box, memory and error, and `*bytesConsumed` less by the
-- length of `a`.
pub parse_chunks :
    (p : Parser) (st : Stage) (box : Box) (m : Memory) (a b : Bytes) (r : Parsed)
    → Represents p st
    → All (λ c. c < 256) a
    → All (λ c. c < 256) b
    → amp_parse_box p (some box) m a ≡ some r
    → r.full ≡ false
    → r.parser.error ≡ 0
    → (second whole : Parsed) × (amp_parse_box r.parser r.box r.memory b ≡ some second)
      × (amp_parse_box p (some box) m (a ++ b) ≡ some whole)
      × (whole.full ≡ second.full)
      × (whole.box ≡ second.box)
      × (whole.memory ≡ second.memory)
      × (whole.parser.error ≡ second.parser.error)
      × (whole.consumed ≡ length a + second.consumed)
unfolding SameEffect
parse_chunks p st box m a b r rep ha hb ran more clean =
    let (r₁, ran₁, agrees₁) = parse_box_refines p box m a st rep ha in
    let same₁ : r₁ ≡ r = ground (arith, ran₁) in
    let (st', box', m', went, rep', in_box, mem) =
      inside r (run st box m a) (length a)
        (subst (λ q. Agrees q (run st box m a) (length a)) same₁ agrees₁) more clean in
    let (second, whole, ran₂, ran₃, (f, bb, mm, e, c)) =
      second_call p r.parser st st' box box' m m' a b rep rep' ha hb went in
    (
      second,
      whole,
      subst (λ t. amp_parse_box r.parser t r.memory b ≡ some second) (sym in_box)
          (subst (λ t. amp_parse_box r.parser (some box') t b ≡ some second) (sym mem) ran₂),
      ran₃,
      f,
      bb,
      mm,
      e,
      c,
    )
