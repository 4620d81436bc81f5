-- ===== src/Handlers.antt =====
-- The functions of the application, and what libamp does with them outside the dispatch (amp.c):
-- _amp_send_unhandled_command_error, amp_respond, amp_cancel, amp_add_responder and
-- amp_remove_responder.
pub mod Reply
pub mod Respond
pub mod Refusal
use libamp.Common.{ℕ, ◌++◌, Option, none, some, length, ◌==◌, if◌then◌else◌, take}
use libamp.Common.Int.{ℤ, pos, to_unsigned}
use libamp.Memory.{Memory, malloc, release}
use libamp.CString.{Bytes, codes}
use libamp.Errors.{ok, err, enomem, no_such_ask_key}
use libamp.Box.{Box, amp_new_box, amp_free_box}
use libamp.Box.Serialize.{amp_serialize_box}
use libamp.Types.{amp_put_bytes, amp_put_cstring}
use libamp.Dispatch.{pop_callback, free_callback, new_responder, put_responder, remove_responder}
use libamp.Messages.{
  Request, CallResult, cancelled, answer, error, error_code_key, error_descr_key, new_result,
}
use libamp.Calls.{Peer, WriteHandler, Output, do_write}

-- The application's functions: its log and write handlers, and what its responders and callbacks do
-- when they are called with their argument.
pub record Application (F A S : Type 0) : Type 0 where
  pub output : Output F A S
  pub respond : F → A → Request → Peer F A S → Memory → Peer F A S × Memory
  pub call_back : F → A → CallResult → Peer F A S → Memory → Peer F A S × Memory

abbrev pub prefix : Bytes
prefix = codes "Unhandled Command: '"

abbrev pub suffix : Bytes
suffix = codes "'"

module _ {F A S : Type 0} where
  -- The rest of _amp_send_unhandled_command_error, once the box holds the ask key and the code: the
  -- description is built in a buffer of its own, and both are freed at the end.
  unfoldable pub send_description :
      WriteHandler F A S → Request → Box → Peer F A S → Memory → ℤ × Peer F A S × Memory
  send_description write req box peer m =
      let (got, m1) = malloc m in
      if got
      then (let buf : Bytes = prefix ++ (take req.command.size req.command.value ++ suffix) in
          let (e, box1, m2) = amp_put_bytes box error_descr_key buf (pos (length buf)) m1 in
          if e == 0
          then (let (packet, m3) = amp_serialize_box box1 m2 in
              elim packet [
                | err e2 ↦ (pos e2, peer, release 1 (amp_free_box (some box1) m3))
                | ok (bytes, size) ↦
                    let (ret, peer1, m4) = write bytes size peer m3 in
                    (ret, peer1, release 1 (amp_free_box (some box1) m4))
              ])
          else (pos e, peer, release 1 (amp_free_box (some box1) m2)))
      else (pos enomem, peer, amp_free_box (some box) m1)

  -- _amp_send_unhandled_command_error, for a request with an ask key. The write handler is called
  -- without a test: `none` is a call through a null pointer.
  unfoldable pub send_unhandled_command_error :
      Option (WriteHandler F A S)
      → Request
      → Bytes
      → ℕ
      → Peer F A S
      → Memory
      → Option (ℤ × Peer F A S × Memory)
  send_unhandled_command_error write req ask_value ask_size peer m =
      let (new, m1) = amp_new_box m in
      elim new [
        | none ↦ some (pos enomem, peer, m1)
        | some box ↦
            let (e, box1, m2) = amp_put_bytes box error ask_value (pos ask_size) m1 in
            if e == 0
            then (let (e2, box2, m3) = amp_put_cstring box1 error_code_key (codes "UNHANDLED") m2 in
                if e2 == 0
                then elim write [
                  | none ↦ none
                  | some w ↦ some (send_description w req box2 peer m3)
                ]
                else some (pos e2, peer, amp_free_box (some box2) m3))
            else some (pos e, peer, amp_free_box (some box1) m2)
      ]

  -- `ask_key` is converted to the key of the map.
  unfoldable pub amp_cancel : Application F A S → Peer F A S → ℤ → Memory → ℕ × Peer F A S × Memory
  unfolding free_callback
  amp_cancel app peer ask_key m =
      let (popped, map, m1) = pop_callback peer.outstanding_requests (to_unsigned ask_key) m in
      let peer1 : Peer F A S = record peer { outstanding_requests = map } in
      elim popped [
        | none ↦ (no_such_ask_key, peer1, m1)
        | some cb ↦
            let (result, m2) = new_result cancelled m1 in
            elim result [
              | err ret ↦ (ret, peer1, free_callback cb m2)
              | ok r ↦
                  let (peer2, m3) = app.call_back cb.func cb.arg r peer1 m2 in
                  (0, peer2, free_callback cb m3)
            ]
      ]

  -- `none`: _amp_put_responder writes through the null pointer of a failed allocation.
  unfoldable pub amp_add_responder :
      Bytes → Peer F A S → Bytes → F → A → Memory → Option (Peer F A S × Memory)
  amp_add_responder garbage peer command responder responder_arg m =
      let (resp, m1) = new_responder garbage responder responder_arg m in
      elim resp [
        | none ↦ none
        | some r ↦
            let (map, m2) = put_responder peer.responders command r m1 in
            some (record peer { responders = map }, m2)
      ]

  unfoldable pub amp_remove_responder : Peer F A S → Bytes → Memory → Peer F A S × Memory
  amp_remove_responder peer command m =
      let (map, m1) = remove_responder peer.responders command m in
      (record peer { responders = map }, m1)

  -- The code, the box of arguments with the _answer key, and the rest. A request without an ask key
  -- is dereferenced: `none`.
  unfoldable pub amp_respond :
      Output F A S → Peer F A S → Request → Box → Memory → Option (ℤ × Box × Peer F A S × Memory)
  amp_respond out peer request args m = elim request.ask_key [
    | none ↦ none
    | some key ↦
        let (e, args1, m1) = amp_put_bytes args answer key.value (pos key.size) m in
        if e == 0
        then (let (packet, m2) = amp_serialize_box args1 m1 in
            elim packet [
              | err ret ↦ some (pos ret, args1, peer, m2)
              | ok (buf, buf_size) ↦
                  let (ret, peer1, m3) = do_write out buf buf_size peer m2 in
                  some (ret, args1, peer1, m3)
            ])
        else some (pos e, args1, peer, m1)
  ]
