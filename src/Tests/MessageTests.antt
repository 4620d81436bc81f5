-- ===== src/Tests/MessageTests.antt =====
-- The theorems on requests, responses and errors, at sample boxes.
use libamp.Common.{◌≡◌, refl, arith, [], ◌∷◌, ◌++◌, some, none, take, is_some}
use libamp.Common.Int.{pos}
use libamp.CString.{Bytes, codes}
use libamp.Errors.{ok, is_ok}
use libamp.Box.{Box, empty_box, put_buf, get_buf}
use libamp.Box.Valid.{IsValid, empty_box-IsValid}
use libamp.Box.Put.{put_buf-IsValid}
use libamp.Types.{amp_get_bytes}
use libamp.Messages.{
  Request, command_key, ask, amp_new_chunk, amp_chunk_copy_buffer, optional_chunk, required_chunk,
  new_request_from_box,
}
use libamp.Messages.Laws.{Returns, box_blocks, end_request, request_memory, request_contents}
use libamp.Tests.Samples.{plenty, box_program}

-- A box with the command "Sum" and no _ask key.
abbrev command_box : Box
command_box = (put_buf empty_box command_key (codes "Sum") (pos 3) plenty).1

command_box-IsValid : IsValid command_box
command_box-IsValid =
    put_buf-IsValid empty_box command_key (codes "Sum") (pos 3) plenty empty_box-IsValid
      (omega arith)

abbrev sum_request : Request
sum_request = record {
  command = record { value = codes "Sum" ++ 0 ∷ []; size = 3 };
  ask_key = none;
  args = some command_box;
}

request_program : Unit {0}
unfolding box_program new_request_from_box required_chunk optional_chunk amp_chunk_copy_buffer
    amp_new_chunk amp_get_bytes
request_program = tt

request_contents_example :
    (buf : Bytes) × (get_buf command_box command_key ≡ ok (buf, 3))
    × (codes "Sum" ++ 0 ∷ [] ≡ take 3 buf ++ 0 ∷ [])
    × (is_some sum_request.ask_key ≡ is_ok (get_buf command_box ask))
    × (some command_box ≡ some command_box)
request_contents_example =
    request_contents command_box plenty sum_request command_box-IsValid
      (unfold request_program in refl)

request_memory_example :
    let r = new_request_from_box command_box plenty in
    Returns plenty (end_request command_box r.0 r.1) (box_blocks command_box)
request_memory_example = request_memory command_box plenty
