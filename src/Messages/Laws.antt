-- ===== src/Messages/Laws.antt =====
-- What the messages hold, and that no block of memory is lost on the way.
use libamp.Common.{
  ℕ, ◌+◌, ◌*◌, ◌≡◌, ap, sym, ◌∙◌, arith, [], ◌∷◌, ◌++◌, Option, none, some, take, length, inl, inr,
  is_some, if◌then◌else◌,
}
use libamp.Memory.{Memory, malloc, release}
use libamp.CString.{Bytes}
use libamp.Errors.{Result-cases, Result, ok, err, is_ok}
use libamp.Hashing.Buckets.{flatten}
use libamp.Box.{Box, amp_has_key, amp_free_box, amp_free_box_lem, get_buf}
use libamp.Box.Valid.{IsValid, has_key-get_buf}
use libamp.Types.{amp_get_bytes}
use libamp.Messages.{
  Chunk, Request, Response, Error, command_key, ask, error_code_key, error_descr_key, amp_new_chunk,
  amp_chunk_copy_buffer, amp_free_chunk, optional_chunk, required_chunk, new_request_from_box,
  new_response_from_box, new_error_from_box, amp_free_request, amp_free_response, amp_free_error,
}

-- The blocks of a box: two for each pair, and its own.
abbrev pub box_blocks : Box → ℕ
box_blocks box = 2 * length (flatten box.buckets) + 1

-- Between `m` and `m'`, `n` blocks more have been freed than allocated.
abbrev pub Returns : Memory → Memory → ℕ → Type 0
Returns m m' n = m'.frees + m.allocs ≡ m'.allocs + m.frees + n

-- What amp_free_box frees.
pub free_box_memory :
    (box : Box) (m : Memory)
    → ((amp_free_box (some box) m).frees ≡ m.frees + box_blocks box)
      × ((amp_free_box (some box) m).allocs ≡ m.allocs)
unfolding release
free_box_memory box m =
    let same = amp_free_box_lem box in (ap (λ f. (f m).frees) same, ap (λ f. (f m).allocs) same)

required_chunk_memory :
    (box : Box) (key : Bytes) (m : Memory)
    → (required_chunk box key m).1.allocs
      ≡ m.allocs + (if is_ok (required_chunk box key m).0 then 1 else 0)
unfolding required_chunk amp_chunk_copy_buffer amp_new_chunk malloc
required_chunk_memory box key m = ground arith

required_chunk_frees :
    (box : Box) (key : Bytes) (m : Memory) → (required_chunk box key m).1.frees ≡ m.frees
unfolding required_chunk amp_chunk_copy_buffer amp_new_chunk malloc
required_chunk_frees box key m = ground arith

holds_chunk : Result (Option Chunk) → ℕ
holds_chunk (ok (some c)) = 1
holds_chunk (ok none) = 0
holds_chunk (err e) = 0

optional_chunk_memory :
    (box : Box) (key : Bytes) (m : Memory)
    → (optional_chunk box key m).1.allocs ≡ m.allocs + holds_chunk (optional_chunk box key m).0
unfolding optional_chunk amp_chunk_copy_buffer amp_new_chunk malloc holds_chunk
optional_chunk_memory box key m = ground arith

optional_chunk_frees :
    (box : Box) (key : Bytes) (m : Memory) → (optional_chunk box key m).1.frees ≡ m.frees
unfolding optional_chunk amp_chunk_copy_buffer amp_new_chunk malloc
optional_chunk_frees box key m = ground arith

-- The end of a request, or of the box that no request could be made of.
unfoldable pub end_request : Box → Result Request → Memory → Memory
end_request box (err e) m = amp_free_box (some box) m
end_request box (ok r) m = amp_free_request r m

-- Whether or not _amp_new_request_from_box makes a request: once the request is freed, or the box if
-- there is none, all blocks that were allocated for it have been freed, and with them those of the
-- box.
pub request_memory :
    (box : Box) (m : Memory)
    → (let r = new_request_from_box box m in Returns m (end_request box r.0 r.1) (box_blocks box))
unfolding new_request_from_box end_request amp_free_request amp_free_chunk release holds_chunk
request_memory box m =
    let m1 = (malloc m).1 in
    let m2 = (required_chunk box command_key m1).1 in
    let m3 = (optional_chunk box ask m2).1 in
    ground (
      arith,
      required_chunk_memory box command_key m1,
      required_chunk_frees box command_key m1,
      optional_chunk_memory box ask m2,
      optional_chunk_frees box ask m2,
      free_box_memory box m1,
      free_box_memory box (release 1 m1),
      free_box_memory box (release 1 m2),
      free_box_memory box (release 1 (release 1 m3)),
      free_box_memory box (release 1 m3),
      free_box_memory box (release 1 (release 1 m3)),
    )

unfoldable pub end_response : Box → Result Response → Memory → Memory
end_response box (err e) m = amp_free_box (some box) m
end_response box (ok r) m = amp_free_response r m

-- Whether or not _amp_new_response_from_box makes a response: once the response is freed, or the box
-- if there is none, all blocks that were allocated for it have been freed, and with them those of
-- the box.
pub response_memory :
    (box : Box) (m : Memory)
    → (let r = new_response_from_box box m in Returns m (end_response box r.0 r.1) (box_blocks box))
unfolding new_response_from_box end_response amp_free_response release
response_memory box m = ground (
  arith,
  free_box_memory box m,
  free_box_memory box (malloc m).1,
  free_box_memory box (release 1 (malloc m).1),
)

unfoldable pub end_error : Box → Result Error → Memory → Memory
end_error box (err e) m = amp_free_box (some box) m
end_error box (ok e) m = amp_free_error e m

-- Whether or not _amp_new_error_from_box makes an error: once the error is freed, or the box if
-- there is none, all blocks that were allocated for it have been freed, and with them those of the
-- box.
pub error_memory :
    (box : Box) (m : Memory)
    → (let r = new_error_from_box box m in Returns m (end_error box r.0 r.1) (box_blocks box))
unfolding new_error_from_box end_error amp_free_error amp_free_chunk release holds_chunk
error_memory box m =
    let m1 = (malloc m).1 in
    let m2 = (optional_chunk box error_code_key m1).1 in
    let m3 = (optional_chunk box error_descr_key m2).1 in
    ground (
      arith,
      optional_chunk_memory box error_code_key m1,
      optional_chunk_frees box error_code_key m1,
      optional_chunk_memory box error_descr_key m2,
      optional_chunk_frees box error_descr_key m2,
      free_box_memory box m1,
      free_box_memory box (release 1 m1),
      free_box_memory box (release 1 m2),
      free_box_memory box (release 1 m3),
      free_box_memory box (release 1 (release 1 m3)),
      free_box_memory box m3,
    )

-- What a required chunk holds.
required_contents :
    (box : Box) (key : Bytes) (m : Memory) (c : Chunk)
    → (required_chunk box key m).0 ≡ ok c
    → (buf : Bytes) × (get_buf box key ≡ ok (buf, c.size)) × (c.value ≡ take c.size buf ++ 0 ∷ [])
unfolding required_chunk amp_chunk_copy_buffer amp_new_chunk amp_get_bytes
required_contents box key m c made = elim (Result-cases (get_buf box key)) [
  | inl ((buf, n), found) ↦ (buf, ground (arith, made, found), ground (arith, made, found))
  | inr (e, missing) ↦ absurd (ground (arith, made, missing))
]

optional_presence :
    (box : Box) (key : Bytes) (m : Memory) (o : Option Chunk)
    → (optional_chunk box key m).0 ≡ ok o
    → is_some o ≡ amp_has_key box key
unfolding optional_chunk amp_chunk_copy_buffer amp_new_chunk
optional_presence box key m o made = ground (arith, made)

-- A request that _amp_new_request_from_box makes of a well-formed box holds the bytes of the
-- _command key with a NUL behind them, an ask key exactly if the box has the _ask key, and the box.
pub request_contents :
    (box : Box) (m : Memory) (r : Request)
    → IsValid box
    → (new_request_from_box box m).0 ≡ ok r
    → (buf : Bytes) × (get_buf box command_key ≡ ok (buf, r.command.size))
      × (r.command.value ≡ take r.command.size buf ++ 0 ∷ [])
      × (is_some r.ask_key ≡ is_ok (get_buf box ask))
      × (r.args ≡ some box)
unfolding new_request_from_box
request_contents box m r v made =
    let m1 = (malloc m).1 in
    let m2 = (required_chunk box command_key m1).1 in
    elim (Result-cases (required_chunk box command_key m1).0) [
      | inr (e, failed) ↦ absurd (ground (arith, made, failed))
      | inl (c, some_command) ↦ elim (Result-cases (optional_chunk box ask m2).0) [
        | inr (e, failed) ↦ absurd (ground (arith, made, some_command, failed))
        | inl (o, some_ask) ↦
            let (buf, found, value) = required_contents box command_key m1 c some_command in
            let same : r ≡ record { command = c; ask_key = o; args = some box } =
              ground (arith, made, some_command, some_ask) in
            (
              buf,
              found ∙ ap (λ q. ok (buf, q.command.size)) (sym same),
              ap (λ q. q.command.value) same
                  ∙ value
                  ∙ ap (λ q. take q.command.size buf ++ 0 ∷ []) (sym same),
              ap (λ q. is_some q.ask_key) same
                  ∙ optional_presence box ask m2 o some_ask
                  ∙ has_key-get_buf box ask v,
              ap (λ q. q.args) same,
            )
      ]
    ]
