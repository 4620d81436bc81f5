-- ===== src/Messages.antt =====
-- The messages that amp.c makes of a parsed box: requests, responses, errors, and the results that
-- callbacks are given. A chunk is a byte string with its size and a NUL byte behind it.
pub mod Laws
pub mod Steady
use libamp.Common.{
  ℕ, ◌+◌, ◌*◌, Bool, true, false, ◌&&◌, List, [], ◌∷◌, ◌++◌, Option, none, some, take, length, ◌==◌,
  if◌then◌else◌,
}
use libamp.Common.Int.{ℤ}
use libamp.Memory.{Memory, malloc, release}
use libamp.CString.{Bytes, codes, bytes_eq}
use libamp.Errors.{Result, ok, err, enomem}
use libamp.Box.{Box, amp_has_key, amp_free_box}
use libamp.Types.{amp_get_bytes, amp_get_int, amp_get_uint}

abbrev pub command_key : Bytes
command_key = codes "_command"

abbrev pub ask : Bytes
ask = codes "_ask"

abbrev pub answer : Bytes
answer = codes "_answer"

abbrev pub error : Bytes
error = codes "_error"

abbrev pub error_code_key : Bytes
error_code_key = codes "_error_code"

abbrev pub error_descr_key : Bytes
error_descr_key = codes "_error_description"

-- struct AMP_Chunk
pub record Chunk : Type 0 where
  pub value : Bytes
  pub size : ℕ

-- `garbage` is what the fresh memory holds; the byte behind the chunk is set to NUL.
unfoldable pub amp_new_chunk : Bytes → ℕ → Memory → Option Chunk × Memory
unfolding malloc
amp_new_chunk garbage size m =
    let (got, m') = malloc m in
    if got
    then (some (record { value = take size garbage ++ 0 ∷ []; size = size }), m')
    else (none, m')

unfoldable pub amp_chunk_for_buffer : Bytes → ℕ → Memory → Option Chunk × Memory
unfolding amp_new_chunk
amp_chunk_for_buffer buf size m =
    let (c, m') = amp_new_chunk [] 0 m in
    elim c [ none ↦ (none, m') | some _ ↦ (some (record { value = buf; size = size }), m') ]

-- The copy fills the whole chunk.
unfoldable pub amp_chunk_copy_buffer : Bytes → ℕ → Memory → Option Chunk × Memory
unfolding amp_new_chunk
amp_chunk_copy_buffer buf size m = amp_new_chunk buf size m

unfoldable pub amp_free_chunk : Option Chunk → Memory → Memory
unfolding release
amp_free_chunk none m = m
amp_free_chunk (some c) m = release 1 m

unfoldable pub amp_chunks_equal : Chunk → Chunk → Bool
amp_chunks_equal c1 c2 =
    c1.size == c2.size && bytes_eq (take c1.size c1.value) (take c1.size c2.value)

-- struct AMP_Request; the application may have set `args` to NULL.
pub record Request : Type 0 where
  pub command : Chunk
  pub ask_key : Option Chunk
  pub args : Option Box

-- struct AMP_Response
pub record Response : Type 0 where
  pub args : Box
  pub answer_key : ℕ

-- struct AMP_Error
pub record Error : Type 0 where
  pub answer_key : ℤ
  pub error_code : Option Chunk
  pub error_descr : Option Chunk

-- struct AMP_Result: its reason (enum amp_result_reason), with the message that a result of that reason holds.
pub data CallResult : Type 0 where
  success : Response → CallResult
  failure : Error → CallResult
  cancelled : CallResult

-- The lines `if (amp_has_key(box, key)) { amp_get_bytes ...; amp_chunk_copy_buffer ... }` that the
-- constructors below share.
unfoldable pub optional_chunk : Box → Bytes → Memory → Result (Option Chunk) × Memory
optional_chunk box key m =
    if amp_has_key box key
    then elim (amp_get_bytes box key) [
      | err ret ↦ (err ret, m)
      | ok (buf, buf_size) ↦
          let (c, m') = amp_chunk_copy_buffer buf buf_size m in
          elim c [ none ↦ (err enomem, m') | some chunk ↦ (ok (some chunk), m') ]
    ]
    else (ok none, m)

-- The chunk of a value that has to be there.
unfoldable pub required_chunk : Box → Bytes → Memory → Result Chunk × Memory
required_chunk box key m = elim (amp_get_bytes box key) [
  | err ret ↦ (err ret, m)
  | ok (buf, buf_size) ↦
      let (c, m') = amp_chunk_copy_buffer buf buf_size m in
      elim c [ none ↦ (err enomem, m') | some chunk ↦ (ok chunk, m') ]
]

-- On an error the struct and the chunks so far are freed; `free` of NULL does nothing.
unfoldable pub new_request_from_box : Box → Memory → Result Request × Memory
unfolding malloc release
new_request_from_box box m =
    let (got, m1) = malloc m in
    if got
    then (let (cmd, m2) = required_chunk box command_key m1 in
        elim cmd [
          | err ret ↦ (err ret, release 1 m2)
          | ok cmd_name ↦
              let (key, m3) = optional_chunk box ask m2 in
              elim key [
                | err ret ↦ (err ret, release 2 m3)
                | ok ask_key ↦
                    (ok (record { command = cmd_name; ask_key = ask_key; args = some box }), m3)
              ]
        ])
    else (err enomem, m1)

unfoldable pub new_response_from_box : Box → Memory → Result Response × Memory
unfolding malloc release
new_response_from_box box m =
    let (got, m1) = malloc m in
    if got
    then elim (amp_get_uint box answer) [
      | err ret ↦ (err ret, release 1 m1)
      | ok key ↦ (ok (record { args = box; answer_key = key }), m1)
    ]
    else (err enomem, m1)

-- The box is freed when the error is made, and kept when it is not.
unfoldable pub new_error_from_box : Box → Memory → Result Error × Memory
unfolding malloc release amp_free_chunk amp_free_box
new_error_from_box box m =
    let (got, m1) = malloc m in
    if got
    then elim (amp_get_int box error) [
      | err ret ↦ (err ret, release 1 m1)
      | ok key ↦
          let (code, m2) = optional_chunk box error_code_key m1 in
          elim code [
            | err ret ↦ (err ret, release 1 m2)
            | ok error_code ↦
                let (descr, m3) = optional_chunk box error_descr_key m2 in
                elim descr [
                  | err ret ↦ (err ret, amp_free_chunk error_code (release 1 m3))
                  | ok error_descr ↦ (
                    ok (record {
                      answer_key = key;
                      error_code = error_code;
                      error_descr = error_descr;
                    }),
                    amp_free_box (some box) m3,
                  )
                ]
          ]
    ]
    else (err enomem, m1)

-- _amp_new_result_with_response, _amp_new_result_with_error and _amp_new_result_with_cancel.
unfoldable pub new_result : CallResult → Memory → Result CallResult × Memory
unfolding malloc
new_result r m = let (got, m') = malloc m in if got then (ok r, m') else (err enomem, m')

unfoldable pub amp_free_request : Request → Memory → Memory
unfolding release amp_free_chunk amp_free_box
amp_free_request r m =
    release 1 (amp_free_box r.args (amp_free_chunk r.ask_key (amp_free_chunk (some r.command) m)))

unfoldable pub amp_free_response : Response → Memory → Memory
unfolding release amp_free_box
amp_free_response r m = release 1 (amp_free_box (some r.args) m)

unfoldable pub amp_free_error : Error → Memory → Memory
unfolding release amp_free_chunk
amp_free_error e m = release 1 (amp_free_chunk e.error_descr (amp_free_chunk e.error_code m))

unfoldable pub amp_free_result : CallResult → Memory → Memory
unfolding release amp_free_response amp_free_error
amp_free_result (success r) m = release 1 (amp_free_response r m)
amp_free_result (failure e) m = release 1 (amp_free_error e m)
amp_free_result cancelled m = release 1 m
