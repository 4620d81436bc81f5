-- ===== src/Parser/Refine/ValData.antt =====
-- The rounds of amp_parse_box (amp.c) in the state VAL_DATA_READ.
use libamp.Common.{
  ℕ, ◌+◌, ◌-◌, ◌<◌, ◌≤◌, ◌≡◌, refl, sym, ap, ◌∙◌, arith, [], ◌∷◌, ◌++◌, length, take, drop, ◌==◌,
  some, length-append, length-take, take-append-drop, Bool-cases, inl, inr, ◌⊎◌, append-nil,
  drop_all, take_all,
}
use libamp.Common.Int.{pos, negsuc, ◌-ℤ◌}
use libamp.CString.{Bytes, c_str}
use libamp.Memory.{Memory}
use libamp.Box.{Box, put_buf}
use libamp.Box.Congr.{put_buf_congr}
use libamp.Parser.{Parser, key_len_read, val_data_read, next, round, val_data_round, store_pair}
use libamp.Parser.Stage.{start, in_value, close_pair, after, run}
use libamp.Parser.Run.{resume, run-in_value, run-in_value_end, run-in_value_empty}
use libamp.Parser.{memcpy_at, val_data_size}
use libamp.Parser.Represents.{Represents, Holds, memcpy_behind}
use libamp.Parser.Refine.Agreement.{RoundAgrees, next_agrees, failed_agrees, transfer, needed}

module _ (p : Parser) (box : Box) (m : Memory) (c : ℕ) (s : Bytes) (byte : c < 256) where
  pub val_part_eq :
      (k : ℕ) (d : Bytes)
      → p.state ≡ val_data_read
      → p.val_len -ℤ pos p.val_data_fetched ≡ pos k
      → length (c ∷ s) < k
      → memcpy_at val_data_size p.val_data p.val_data_fetched (c ∷ s) ≡ some d
      → round p.state p (some box) m c s
        ≡ next
            (record p { val_data = d; val_data_fetched = p.val_data_fetched + length (c ∷ s) })
            (some box)
            m
            (length (c ∷ s))
  unfolding round val_data_round
  val_part_eq k d state need h written = ground arith

  pub val_end_eq :
      (k : ℕ) (d : Bytes)
      → p.state ≡ val_data_read
      → p.val_len -ℤ pos p.val_data_fetched ≡ pos k
      → k ≤ length (c ∷ s)
      → memcpy_at val_data_size p.val_data p.val_data_fetched (take k (c ∷ s)) ≡ some d
      → round p.state p (some box) m c s
        ≡ store_pair
            (record p { val_data = d; val_data_fetched = p.val_data_fetched + k })
            (some box)
            m
            k
  unfolding round val_data_round
  val_end_eq k d state need h written = ground arith

  pub in_value_part :
      (key : Bytes) (n : ℕ) (vs : Bytes)
      → Represents p (in_value key n vs)
      → length (c ∷ s) < n - length vs
      → RoundAgrees
          (round p.state p (some box) m c s)
          p.state
          (run (in_value key n vs) box m (c ∷ s))
          (c ∷ s)
  in_value_part key n vs (state, has, val_len, small, fetched, holds, short, clean) h =
      let buf : Bytes = c ∷ s in
      let (d, write, held) = memcpy_behind val_data_size p.val_data vs buf (omega arith) holds in
      let written = ap (λ k. memcpy_at val_data_size p.val_data k buf) fetched ∙ write in
      let need = needed p.val_len n p.val_data_fetched (length vs) val_len fetched (omega arith) in
      next_agrees _ p.state _ buf
        (record p { val_data = d; val_data_fetched = p.val_data_fetched + length buf }) box m
        (length buf) (in_value key n (vs ++ buf))
        (val_part_eq (n - length vs) d state need h written)
        (
          state,
          has,
          val_len,
          small,
          omega (arith, length-append vs buf),
          held,
          inl (omega (arith, length-append vs buf)),
          clean,
        )
        (ap (run (in_value key n vs) box m) (sym (append-nil buf))
          ∙ run-in_value key n vs buf [] box m (omega arith)
          ∙ ap (λ t. after (length buf) (run (in_value key n (vs ++ buf)) box m t))
              (sym (drop_all (length buf) buf (omega arith))))
        (omega arith) (omega arith)

-- Storing the pair, against the byte machine's.
pub store_agrees :
    (p : Parser) (box : Box) (m : Memory) (key value buf : Bytes) (k : ℕ)
    → put_buf box p.key_data p.val_data p.val_len m ≡ put_buf box key value (pos (length value)) m
    → k ≤ length buf
    → RoundAgrees
        (store_pair p (some box) m k)
        val_data_read
        (resume (close_pair key value box m k) k (drop k buf))
        buf
unfolding store_pair close_pair resume
store_agrees p box m key value buf k same fits =
    let put = put_buf box key value (pos (length value)) m in
    elim (Bool-cases (put.0 == 0)) [
      | inl stored ↦
          next_agrees _ _ _ buf
            (record p {
              error = 0;
              key_len = negsuc 0;
              val_len = negsuc 0;
              key_data_fetched = 0;
              val_data_fetched = 0;
              state = key_len_read;
            })
            put.1 put.2 k start (rw (same, store_pair, stored))
            (refl, refl, refl, (refl, refl), refl) (rw (close_pair, stored, resume)) fits
            (omega arith)
      | inr refused ↦
          failed_agrees _ _ _ buf (record p { error = put.0 }) put.1 put.2 k
            (rw (same, store_pair, refused)) (ground arith) (rw (close_pair, refused, resume))
    ]

-- What the array holds behind the last write is the value.
pub same_put :
    (p : Parser) (box : Box) (m : Memory) (key d value : Bytes) (n : ℕ)
    → c_str p.key_data ≡ c_str key
    → Holds d value
    → length value ≡ n
    → p.val_len ≡ pos n
    → put_buf box p.key_data d p.val_len m ≡ put_buf box key value (pos (length value)) m
same_put p box m key d value n has (held, long) size val_len =
    ap (λ z. put_buf box p.key_data d z m) (val_len ∙ ap pos (sym size))
    ∙ put_buf_congr box p.key_data key d value (length value) m has
        (held ∙ sym (take_all (length value) value (omega arith)))

pub value_run :
    (key : Bytes) (n k : ℕ) (vs : Bytes) (box : Box) (m : Memory) (c : ℕ) (s : Bytes)
    → k ≡ n - length vs
    → k ≤ length (c ∷ s)
    → (length vs < n) ⊎ ((vs ≡ []) × (n ≡ 0))
    → run (in_value key n vs) box m (c ∷ s)
      ≡ resume (close_pair key (vs ++ take k (c ∷ s)) box m k) k (drop k (c ∷ s))
value_run key n k vs box m c s e h (inl short) =
    let buf : Bytes = c ∷ s in
    let xs = take k buf in
    let size : length xs ≡ k = omega (arith, length-take k buf) in
    ap (run (in_value key n vs) box m) (sym (take-append-drop k buf))
    ∙ run-in_value_end key n vs xs (drop k buf) box m (omega arith) short
    ∙ ap (λ i. resume (close_pair key (vs ++ xs) box m i) i (drop k buf)) size
value_run key n k vs box m c s e h (inr (no_bytes, no_size)) =
    let none_left : k ≡ 0 = omega arith in
    rw (no_bytes, no_size, none_left) (run-in_value_empty key box m c s)

module _ (p : Parser) (box : Box) (m : Memory) (c : ℕ) (s : Bytes) (byte : c < 256) where
  pub in_value_end :
      (key : Bytes) (n : ℕ) (vs : Bytes)
      → Represents p (in_value key n vs)
      → n - length vs ≤ length (c ∷ s)
      → RoundAgrees
          (round p.state p (some box) m c s)
          p.state
          (run (in_value key n vs) box m (c ∷ s))
          (c ∷ s)
  in_value_end key n vs (state, has, val_len, small, fetched, holds, short, clean) h =
      let buf : Bytes = c ∷ s in
      let k = n - length vs in
      let xs = take k buf in
      let size : length xs ≡ k = omega (arith, length-take k buf) in
      let fits : length vs ≤ n = ground arith in
      let whole : length (vs ++ xs) ≡ n = omega (arith, length-append vs xs) in
      let (d, write, held) = memcpy_behind val_data_size p.val_data vs xs (omega arith) holds in
      let written = ap (λ i. memcpy_at val_data_size p.val_data i xs) fetched ∙ write in
      let need = needed p.val_len n p.val_data_fetched (length vs) val_len fetched fits in
      let agrees =
        store_agrees (record p { val_data = d; val_data_fetched = p.val_data_fetched + k }) box m
          key (vs ++ xs) buf k (same_put p box m key d (vs ++ xs) n has held whole val_len) h in
      transfer buf (val_end_eq p box m c s byte k d state need h written) state
        (value_run key n k vs box m c s refl h short) agrees
