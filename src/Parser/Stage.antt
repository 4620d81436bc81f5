-- ===== src/Parser/Stage.antt =====
-- What amp_parse_box (amp.c) means, byte by byte, without its buffers and counters.
use libamp.Common.{ℕ, suc, ◌+◌, ◌*◌, [], ◌∷◌, ◌++◌, length, ◌==◌, if◌then◌else◌}
use libamp.Common.Int.{pos}
use libamp.CString.{Bytes}
use libamp.Memory.{Memory}
use libamp.Errors.{bad_key_size}
use libamp.Box.{Box, put_buf}

-- What has been read of the current pair.
pub data Stage : Type 0 where
  start : Stage
  zero_read : Stage
  in_key : ℕ → Bytes → Stage
  at_length : Bytes → Stage
  in_length : Bytes → ℕ → Stage
  in_value : Bytes → ℕ → Bytes → Stage

-- The effect of some bytes: still inside a box, the end of a box behind `n` bytes, or an error with
-- `n` bytes consumed.
pub data Progress : Type 0 where
  running : Stage → Box → Memory → Progress
  complete : Box → Memory → ℕ → Progress
  failed : ℕ → Box → Memory → ℕ → Progress

-- A byte where a key length begins.
unfoldable pub open_key : Box → Memory → ℕ → Progress
open_key box m c = if c == 0 then running zero_read box m else failed bad_key_size box m 1

-- The pair is put in to the box; `n` bytes count as consumed if that fails.
unfoldable pub close_pair : Bytes → Bytes → Box → Memory → ℕ → Progress
close_pair key value box m n =
    let (e, box', m') = put_buf box key value (pos (length value)) m in
    if e == 0 then running start box' m' else failed e box' m' n

-- A value without bytes is put in when the next byte comes, which then opens a key.
unfoldable pub close_empty : Bytes → Box → Memory → ℕ → Progress
unfolding close_pair open_key
close_empty key box m c = elim (close_pair key [] box m 0) [
  | running st box' m' ↦ open_key box' m' c
  | complete box' m' n ↦ complete box' m' n
  | failed e box' m' n ↦ failed e box' m' n
]

unfoldable pub feed : Stage → Box → Memory → ℕ → Progress
unfolding open_key close_pair close_empty
feed start box m c = open_key box m c
feed zero_read box m c = if c == 0 then complete box m 1 else running (in_key c []) box m
feed (in_key n ks) box m c =
    if suc (length ks) == n
    then running (at_length (ks ++ c ∷ [])) box m
    else running (in_key n (ks ++ c ∷ [])) box m
feed (at_length key) box m c = running (in_length key c) box m
feed (in_length key high) box m c = running (in_value key (high * 256 + c) []) box m
feed (in_value key n vs) box m c =
    if n == 0
    then close_empty key box m c
    else if suc (length vs) == n
    then close_pair key (vs ++ c ∷ []) box m 1
    else running (in_value key n (vs ++ c ∷ [])) box m

-- `n` more bytes were consumed before.
unfoldable pub after : ℕ → Progress → Progress
after n (running st box m) = running st box m
after n (complete box m k) = complete box m (n + k)
after n (failed e box m k) = failed e box m (n + k)

-- A run over bytes ends at the end of a box and at an error.
unfoldable pub run : Stage → Box → Memory → Bytes → Progress
unfolding after
run st box m [] = running st box m
run st box m (c ∷ s) = elim (feed st box m c) [
  | running st' box' m' ↦ after 1 (run st' box' m' s)
  | complete box' m' n ↦ complete box' m' n
  | failed e box' m' n ↦ failed e box' m' n
]
