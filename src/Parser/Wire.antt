-- ===== src/Parser/Wire.antt =====
-- The wire form that amp_serialize_box (box.c) writes, read back by the byte machine of
-- amp_parse_box (amp.c).
use libamp.Common.{
  ℕ, suc, ◌+◌, ◌*◌, ◌/◌, ◌%◌, ◌<◌, ◌≡◌, refl, sym, ap, ◌∙◌, arith, List, [], ◌∷◌, ◌++◌, length,
  append_assoc, none, some, All, length-append, take_all,
}
use libamp.Common.Int.{pos}
use libamp.CString.{Bytes}
use libamp.CString.Laws.{box_key}
use libamp.Memory.{Memory}
use libamp.Hashing.Chain.{find, IsDistinct, find_congr}
use libamp.Errors.{ok}
use libamp.Box.{Box, KeyValue, key_of, put_buf, get_buf}
use libamp.Box.Valid.{IsEntry, IsValid}
use libamp.Box.Put.{put_buf-lookup, put_buf-IsValid}
use libamp.Box.Serialize.{write_pair, write_loop}
use libamp.Box.Serialize.Length.{write_pair_exact, length-write_pair}
use libamp.Parser.Stage.{
  start, zero_read, in_key, at_length, in_length, in_value, Progress, running, complete, failed,
  open_key, close_pair, feed, after, run,
}
use libamp.Parser.Run.{resume, run_step, run-in_key_end, run-in_value_end, run-in_value_empty}

-- The puts of some entries, in turn.
unfoldable pub put_all : List KeyValue → Box → Memory → Box × Memory
put_all [] box m = (box, m)
put_all (e ∷ es) box m =
    let (_, box', m') = put_buf box e.key e.value (pos (length e.value)) m in put_all es box' m'

-- Each of these puts succeeds.
abbrev pub AllStored : List KeyValue → Box → Memory → Type 0
AllStored [] box m = Unit {0}
AllStored (e ∷ es) box m =
    let put = put_buf box e.key e.value (pos (length e.value)) m in
    (put.0 ≡ 0) × AllStored es put.1 put.2

run_value :
    (key value : Bytes) (box : Box) (m : Memory) (c : ℕ) (s : Bytes)
    → run (in_value key (length value) []) box m (value ++ c ∷ s)
      ≡ resume (close_pair key value box m (length value)) (length value) (c ∷ s)
run_value key [] box m c s = run-in_value_empty key box m c s
run_value key (v ∷ value) box m c s =
    run-in_value_end key (suc (length value)) [] (v ∷ value) (c ∷ s) box m (omega arith)
      (omega arith)

resume_stored :
    (key value : Bytes) (box : Box) (m : Memory) (n : ℕ) (s : Bytes)
    → (put_buf box key value (pos (length value)) m).0 ≡ 0
    → (let put = put_buf box key value (pos (length value)) m in
        resume (close_pair key value box m n) n s ≡ after n (run start put.1 put.2 s))
unfolding close_pair resume
resume_stored key value box m n s stored = rw stored

afters :
    (k v : ℕ) (r : Progress)
    → after 1 (after 1 (after k (after 1 (after 1 (after v r))))) ≡ after (4 + k + v) r
unfolding after
afters k v (running st box m) = refl
afters k v (complete box m n) = ap (complete box m) (omega arith)
afters k v (failed e box m n) = ap (failed e box m) (omega arith)

-- The five parts of a pair: two length bytes, the key, two length bytes and the value.
run_pair :
    (key value : Bytes) (box : Box) (m : Memory) (c : ℕ) (s : Bytes)
    → 0 < length key
    → (put_buf box key value (pos (length value)) m).0 ≡ 0
    → (let put = put_buf box key value (pos (length value)) m in
        run start box m
          (0 ∷ length key ∷ (key ++ (length value / 256 ∷ length value % 256 ∷ (value ++ c ∷ s))))
        ≡ after (4 + length key + length value) (run start put.1 put.2 (c ∷ s)))
unfolding feed open_key
run_pair key value box m c s pos_key stored =
    let put = put_buf box key value (pos (length value)) m in
    let tail = length value / 256 ∷ length value % 256 ∷ (value ++ c ∷ s) in
    let size : length value / 256 * 256 + length value % 256 ≡ length value = omega arith in
    run_step start zero_read box m 0 (length key ∷ (key ++ tail)) refl
    ∙ ap (after 1) (
        run_step zero_read (in_key (length key) []) box m (length key) (key ++ tail) (ground arith)
        ∙ ap (after 1) (
            run-in_key_end (length key) [] key tail box m (omega arith) (omega arith)
            ∙ ap (after (length key)) (
                run_step (at_length key) (in_length key (length value / 256)) box m _ _ refl
                ∙ ap (after 1) (
                    run_step (in_length key (length value / 256)) (in_value key (length value) [])
                      box m _ _ (ap (λ n. running (in_value key n []) box m) size)
                    ∙ ap (after 1) (
                        run_value key value box m c s
                        ∙ resume_stored key value box m (length value) (c ∷ s) stored)))))
    ∙ afters (length key) (length value) (run start put.1 put.2 (c ∷ s))

-- A written entry is read back and put in to the box.
run-write_pair :
    (p : KeyValue) (box : Box) (m : Memory) (c : ℕ) (s : Bytes)
    → IsEntry p
    → (put_buf box p.key p.value (pos (length p.value)) m).0 ≡ 0
    → (let put = put_buf box p.key p.value (pos (length p.value)) m in
        run start box m (write_pair p ++ c ∷ s)
        ≡ after (length (write_pair p)) (run start put.1 put.2 (c ∷ s)))
run-write_pair p box m c s v stored =
    let size : 4 + length p.key + length p.value ≡ length (write_pair p) =
      omega (arith, length-write_pair p v, v.key_size, v.value_size) in
    rw (← size, write_pair_exact p v)
      (rw (append_assoc p.key)
        (run_pair p.key p.value box m c s (omega (arith, v.key_size, v.key_pos)) stored))

write_loop_opens : (es : List KeyValue) → (s : Bytes) × (write_loop es ≡ 0 ∷ s)
unfolding write_loop write_pair
write_loop_opens [] = (0 ∷ [], refl)
write_loop_opens (e ∷ es) = (_, refl)

run_end : (box : Box) (m : Memory) → run start box m (0 ∷ 0 ∷ []) ≡ complete box m 2
unfolding run feed open_key after
run_end box m = refl

-- The bytes of some entries are read back as their puts, up to the terminator.
pub run-write_loop :
    (es : List KeyValue) (box : Box) (m : Memory)
    → All IsEntry es
    → AllStored es box m
    → run start box m (write_loop es)
      ≡ complete (put_all es box m).0 (put_all es box m).1 (length (write_loop es))
unfolding write_loop put_all
run-write_loop [] box m v stored = run_end box m
run-write_loop (e ∷ es) box m v stored =
    let put = put_buf box e.key e.value (pos (length e.value)) m in
    let (s, opens) = write_loop_opens es in
    ap (λ t. run start box m (write_pair e ++ t)) opens
    ∙ run-write_pair e box m 0 s v.0 stored.0
    ∙ ap (λ t. after (length (write_pair e)) (run start put.1 put.2 t)) (sym opens)
    ∙ ap (after (length (write_pair e))) (run-write_loop es put.1 put.2 v.1 stored.1)
    ∙ (unfold after in
        ap (complete (put_all es put.1 put.2).0 (put_all es put.1 put.2).1)
          (sym (length-append (write_pair e) (write_loop es))))

-- The puts of entries with different keys are found as these entries.
pub put_all-lookup :
    (es : List KeyValue) (box : Box) (m : Memory)
    → IsValid box
    → All IsEntry es
    → IsDistinct box_key key_of es
    → AllStored es box m
    → (j : Bytes)
    → get_buf (put_all es box m).0 j ≡ elim (find box_key key_of j es) [
      | some e ↦ ok (e.value, e.value_size)
      | none ↦ get_buf box j
    ]
unfolding put_all find
put_all-lookup [] box m valid v apart stored j = refl
put_all-lookup (e ∷ es) box m valid v apart stored j =
    let put = put_buf box e.key e.value (pos (length e.value)) m in
    let first = put_buf-lookup box e.key e.value (pos (length e.value)) m valid stored.0 j in
    let rest =
      put_all-lookup es put.1 put.2
        (put_buf-IsValid box e.key e.value (pos (length e.value)) m valid (omega arith)) v.1 apart.1
        stored.1 j in
    ground (
      arith,
      first,
      rest,
      find_congr box_key key_of j e.key es,
      take_all (length e.value) e.value (omega arith),
      v.0.value_size,
    )
