-- ===== src/Messages/Steady.antt =====
-- The operations on boxes and messages leave the allocator as it is.
use libamp.Common.{ℕ, ◌≡◌, refl, ◌∙◌, ap, arith, Option, none, some}
use libamp.Common.Int.{ℤ, pos}
use libamp.CString.{Bytes}
use libamp.Memory.{Memory, malloc, release}
use libamp.Box.{Box, amp_new_box, amp_free_box, amp_free_box_lem}
use libamp.Box.Put.{put_buf_succeeds}
use libamp.Box.Serialize.{amp_serialize_box}
use libamp.Types.{amp_put_bytes, amp_put_cstring, amp_put_long_long}
use libamp.Messages.{
  command_key, ask, error_code_key, error_descr_key, Request, Response, Error, CallResult, Chunk,
  new_request_from_box, new_response_from_box, new_error_from_box, required_chunk, optional_chunk,
  amp_chunk_copy_buffer, amp_new_chunk, new_result, amp_free_request, amp_free_response,
  amp_free_error, amp_free_chunk,
}

pub put_bytes_steady :
    (box : Box) (key buf : Bytes) (n : ℕ) (m : Memory)
    → (amp_put_bytes box key buf (pos n) m).2.succeeds ≡ m.succeeds
unfolding amp_put_bytes
put_bytes_steady box key buf n m = put_buf_succeeds box key buf n m

pub put_cstring_steady :
    (box : Box) (key value : Bytes) (m : Memory)
    → (amp_put_cstring box key value m).2.succeeds ≡ m.succeeds
unfolding amp_put_cstring
put_cstring_steady box key value m = put_buf_succeeds box key value _ m

pub put_long_long_steady :
    (box : Box) (key : Bytes) (value : ℤ) (m : Memory)
    → (amp_put_long_long box key value m).2.succeeds ≡ m.succeeds
unfolding amp_put_long_long
put_long_long_steady box key value m = put_buf_succeeds box key _ _ m

pub serialize_steady : (box : Box) (m : Memory) → (amp_serialize_box box m).1.succeeds ≡ m.succeeds
unfolding amp_serialize_box malloc
serialize_steady box m = ground arith

pub new_box_steady : (m : Memory) → (amp_new_box m).1.succeeds ≡ m.succeeds
unfolding amp_new_box malloc
new_box_steady m = ground arith

pub required_steady :
    (box : Box) (key : Bytes) (m : Memory) → (required_chunk box key m).1.succeeds ≡ m.succeeds
unfolding required_chunk amp_chunk_copy_buffer amp_new_chunk malloc
required_steady box key m = ground arith

pub optional_steady :
    (box : Box) (key : Bytes) (m : Memory) → (optional_chunk box key m).1.succeeds ≡ m.succeeds
unfolding optional_chunk amp_chunk_copy_buffer amp_new_chunk malloc
optional_steady box key m = ground arith

pub malloc_steady : (m : Memory) → (malloc m).1.succeeds ≡ m.succeeds
unfolding malloc
malloc_steady m = ground arith

pub free_chunk_steady : (c : Option Chunk) (m : Memory) → (amp_free_chunk c m).succeeds ≡ m.succeeds
unfolding amp_free_chunk release
free_chunk_steady none m = refl
free_chunk_steady (some c) m = refl

pub free_box_steady : (b : Option Box) (m : Memory) → (amp_free_box b m).succeeds ≡ m.succeeds
unfolding amp_free_box release
free_box_steady none m = refl
free_box_steady (some b) m = ap (λ f. (f m).succeeds) (amp_free_box_lem b)

pub new_request_steady :
    (box : Box) (m : Memory) → (new_request_from_box box m).1.succeeds ≡ m.succeeds
unfolding new_request_from_box release
new_request_steady box m =
    let m1 = (malloc m).1 in
    ground (
      arith,
      malloc_steady m,
      required_steady box command_key m1,
      optional_steady box ask (required_chunk box command_key m1).1,
    )

pub new_response_steady :
    (box : Box) (m : Memory) → (new_response_from_box box m).1.succeeds ≡ m.succeeds
unfolding new_response_from_box release
new_response_steady box m = ground (arith, malloc_steady m)

pub new_error_steady : (box : Box) (m : Memory) → (new_error_from_box box m).1.succeeds ≡ m.succeeds
unfolding new_error_from_box release amp_free_chunk
new_error_steady box m =
    let m1 = (malloc m).1 in
    let m2 = (optional_chunk box error_code_key m1).1 in
    let m3 = (optional_chunk box error_descr_key m2).1 in
    ground (
      arith,
      malloc_steady m,
      optional_steady box error_code_key m1,
      optional_steady box error_descr_key m2,
      free_box_steady (some box) m3,
    )

pub new_result_steady : (r : CallResult) (m : Memory) → (new_result r m).1.succeeds ≡ m.succeeds
unfolding new_result malloc
new_result_steady r m = ground arith

pub free_request_steady : (r : Request) (m : Memory) → (amp_free_request r m).succeeds ≡ m.succeeds
unfolding amp_free_request release
free_request_steady r m =
    free_box_steady r.args _ ∙ free_chunk_steady r.ask_key _ ∙ free_chunk_steady (some r.command) m

pub free_error_steady : (e : Error) (m : Memory) → (amp_free_error e m).succeeds ≡ m.succeeds
unfolding amp_free_error release
free_error_steady e m = free_chunk_steady e.error_descr _ ∙ free_chunk_steady e.error_code m

pub free_response_steady :
    (r : Response) (m : Memory) → (amp_free_response r m).succeeds ≡ m.succeeds
unfolding amp_free_response release
free_response_steady r m = free_box_steady (some r.args) m
