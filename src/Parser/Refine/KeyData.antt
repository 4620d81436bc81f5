-- ===== src/Parser/Refine/KeyData.antt =====
-- The rounds of amp_parse_box (amp.c) in the state KEY_DATA_READ.
use libamp.Common.{
  ℕ, ◌+◌, ◌-◌, ◌<◌, ◌≤◌, ◌≡◌, refl, sym, ap, ◌∙◌, arith, [], ◌∷◌, ◌++◌, length, take, drop, some,
  length-append, length-take, take-append-drop, append-nil, drop_all,
}
use libamp.Common.Int.{pos, ◌-ℤ◌}
use libamp.CString.{Bytes}
use libamp.Memory.{Memory}
use libamp.Box.{Box}
use libamp.Parser.{Parser, key_data_read, val_len_read, next, round, key_data_round}
use libamp.Parser.Stage.{in_key, at_length, after, run}
use libamp.Parser.Run.{run-in_key, run-in_key_end}
use libamp.Parser.{memcpy_at, key_data_size}
use libamp.Parser.Represents.{Represents, memcpy_behind, memcpy_nul}
use libamp.Parser.Refine.Agreement.{RoundAgrees, next_agrees, needed}

module _ (p : Parser) (box : Box) (m : Memory) (c : ℕ) (s : Bytes) (byte : c < 256) where
  pub key_part_eq :
      (k : ℕ) (d : Bytes)
      → p.state ≡ key_data_read
      → p.key_len -ℤ pos p.key_data_fetched ≡ pos k
      → length (c ∷ s) < k
      → memcpy_at key_data_size p.key_data p.key_data_fetched (c ∷ s) ≡ some d
      → round p.state p (some box) m c s
        ≡ next
            (record p { key_data = d; key_data_fetched = p.key_data_fetched + length (c ∷ s) })
            (some box)
            m
            (length (c ∷ s))
  unfolding round key_data_round
  key_part_eq k d state need h written = ground arith

  pub key_end_eq :
      (k : ℕ) (d d' : Bytes)
      → p.state ≡ key_data_read
      → p.key_len -ℤ pos p.key_data_fetched ≡ pos k
      → k ≤ length (c ∷ s)
      → memcpy_at key_data_size p.key_data p.key_data_fetched (take k (c ∷ s)) ≡ some d
      → memcpy_at key_data_size d (p.key_data_fetched + k) (0 ∷ []) ≡ some d'
      → round p.state p (some box) m c s
        ≡ next
            (record p {
              key_data = d';
              key_data_fetched = p.key_data_fetched + k;
              state = val_len_read;
            })
            (some box)
            m
            k
  unfolding round key_data_round
  key_end_eq k d d' state need h written closed = ground arith

  pub in_key_part :
      (n : ℕ) (ks : Bytes)
      → Represents p (in_key n ks)
      → length (c ∷ s) < n - length ks
      → RoundAgrees
          (round p.state p (some box) m c s)
          p.state
          (run (in_key n ks) box m (c ∷ s))
          (c ∷ s)
  in_key_part n ks (state, key_len, fetched, holds, short, small, (no_len, no_value), clean) h =
      let buf : Bytes = c ∷ s in
      let (d, write, held) = memcpy_behind key_data_size p.key_data ks buf (omega arith) holds in
      let written = ap (λ k. memcpy_at key_data_size p.key_data k buf) fetched ∙ write in
      let need = needed p.key_len n p.key_data_fetched (length ks) key_len fetched (omega arith) in
      next_agrees _ p.state _ buf
        (record p { key_data = d; key_data_fetched = p.key_data_fetched + length buf }) box m
        (length buf) (in_key n (ks ++ buf)) (key_part_eq (n - length ks) d state need h written)
        (
          state,
          key_len,
          omega (arith, length-append ks buf),
          held,
          omega (arith, length-append ks buf),
          small,
          (no_len, no_value),
          clean,
        )
        (ap (run (in_key n ks) box m) (sym (append-nil buf))
          ∙ run-in_key n ks buf [] box m (omega arith)
          ∙ ap (λ t. after (length buf) (run (in_key n (ks ++ buf)) box m t))
              (sym (drop_all (length buf) buf (omega arith))))
        (omega arith) (omega arith)

  pub length_taken : (k : ℕ) → k ≤ length (c ∷ s) → length (take k (c ∷ s)) ≡ k
  length_taken k h = omega (arith, length-take k (c ∷ s))

  pub in_key_end :
      (n : ℕ) (ks : Bytes)
      → Represents p (in_key n ks)
      → n - length ks ≤ length (c ∷ s)
      → RoundAgrees
          (round p.state p (some box) m c s)
          p.state
          (run (in_key n ks) box m (c ∷ s))
          (c ∷ s)
  in_key_end n ks (state, key_len, fetched, holds, short, small, (no_len, no_value), clean) h =
      let buf : Bytes = c ∷ s in
      let k = n - length ks in
      let xs = take k buf in
      let size = length_taken k h in
      let whole : length (ks ++ xs) ≡ n = omega (arith, length-append ks xs) in
      let (d, write, held) = memcpy_behind key_data_size p.key_data ks xs (omega arith) holds in
      let (d', close, named) = memcpy_nul d (ks ++ xs) (omega arith) held in
      let written = ap (λ i. memcpy_at key_data_size p.key_data i xs) fetched ∙ write in
      let end : p.key_data_fetched + k ≡ length (ks ++ xs) = omega arith in
      let closed = ap (λ i. memcpy_at key_data_size d i (0 ∷ [])) end ∙ close in
      let need = needed p.key_len n p.key_data_fetched (length ks) key_len fetched (omega arith) in
      next_agrees _ p.state _ buf
        (record p {
          key_data = d';
          key_data_fetched = p.key_data_fetched + k;
          state = val_len_read;
        })
        box m k (at_length (ks ++ xs)) (key_end_eq k d d' state need h written closed)
        (refl, named, (no_len, no_value), clean)
        (ap (run (in_key n ks) box m) (sym (take-append-drop k buf))
          ∙ run-in_key_end n ks xs (drop k buf) box m (omega arith) short
          ∙ ap (λ i. after i (run (at_length (ks ++ xs)) box m (drop k buf))) size)
        h (omega arith)
