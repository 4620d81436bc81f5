-- ===== src/Dispatch/Laws.antt =====
-- Outstanding requests are answered at most once, and the responder of a command is the last one put.
use libamp.Common.{
  ℕ, ◌≡◌, ap, ◌+◌, none, some, arith, ◌==◌, ◌∙◌, if◌then◌else◌, ◌&&◌, ◌||◌, is_some,
}
use libamp.CString.{Bytes, str_eq}
use libamp.CString.Laws.{responder_key}
use libamp.Memory.{Memory}
use libamp.Table.{Table, table_get, table_remove, table_put}
use libamp.Table.Laws.{IsTable, put-lookup, put-IsTable, put_code, remove-lookup, remove-IsTable}
use libamp.Dispatch.{
  Callback, Responder, callback_key, put_callback, pop_callback, put_responder, get_responder,
  remove_responder,
}

module _ {F A : Type 0} where
  -- Once _amp_put_callback has answered 0 on a well-formed map, _amp_pop_callback with that ask key
  -- gives the callback, with its ask key set, a second pop gives none, and the pops of other keys give what they gave
  -- before the callback was put.
  pub pop-put_callback :
      (cb_map : Table ℕ (Callback F A)) (ask_key : ℕ) (callback : Callback F A) (m : Memory)
      → IsTable callback_key cb_map
      → (put_callback cb_map ask_key callback m).0 ≡ 0
      → (let put = put_callback cb_map ask_key callback m in
          let pop = pop_callback put.1 ask_key put.2 in
          (pop.0 ≡ some (record callback { ask_key = ask_key }))
          × ((j : ℕ)
              → (pop_callback pop.1 j pop.2).0
                ≡ (if j == ask_key then none else (pop_callback cb_map j m).0)))
  unfolding put_callback pop_callback
  pop-put_callback cb_map ask_key callback m v done =
      let value : Callback F A = record callback { ask_key = ask_key } in
      let put = table_put callback_key cb_map ask_key value m in
      let v' = put-IsTable callback_key cb_map ask_key value m v in
      let pop = table_remove callback_key put.1 ask_key put.2 in
      let v'' = remove-IsTable callback_key put.1 ask_key put.2 v' in
      (
        (remove-lookup callback_key put.1 ask_key put.2 v' ask_key).0
            ∙ ground (arith, put-lookup callback_key cb_map ask_key value m v ask_key),
        λ j.
            (remove-lookup callback_key pop.1 j pop.2 v'' j).0
            ∙ ground (
              arith,
              (remove-lookup callback_key put.1 ask_key put.2 v' j).1,
              put-lookup callback_key cb_map ask_key value m v j,
              (remove-lookup callback_key cb_map j m v j).0,
            ),
      )

  -- _amp_put_responder on a well-formed map: the commands that strcmp takes for the given one have
  -- the responder, with its command set, if one was there or the allocation of the binding
  -- succeeds; the responders of all others, and of all commands if not, are as before.
  pub get_responder-put :
      (resp_map : Table Bytes (Responder F A)) (command : Bytes) (r : Responder F A) (m : Memory)
      → IsTable responder_key resp_map
      → (j : Bytes)
      → get_responder (put_responder resp_map command r m).0 j ≡ (
          if str_eq j command && (is_some (get_responder resp_map command) || m.succeeds m.calls)
          then some (record r { command = command })
          else get_responder resp_map j)
  unfolding put_responder get_responder
  get_responder-put resp_map command r m v j =
      let value : Responder F A = record r { command = command } in
      ground (
        arith,
        put-lookup responder_key resp_map command value m v j,
        put_code responder_key resp_map command value m v,
      )

  pub remove_responder_table :
      (resp_map : Table Bytes (Responder F A)) (command : Bytes) (m : Memory)
      → (remove_responder resp_map command m).0 ≡ (table_remove responder_key resp_map command m).1
  unfolding remove_responder
  remove_responder_table resp_map command m = ground arith

  -- After _amp_remove_responder on a well-formed map no command that strcmp takes for the given one
  -- has a responder, and the others keep theirs. The binding and the responder are freed if it was there.
  pub get_responder-remove :
      (resp_map : Table Bytes (Responder F A)) (command : Bytes) (m : Memory)
      → IsTable responder_key resp_map
      → (j : Bytes)
      → (get_responder (remove_responder resp_map command m).0 j
          ≡ (if str_eq j command then none else get_responder resp_map j))
        × ((remove_responder resp_map command m).1.frees
            ≡ m.frees + (if is_some (get_responder resp_map command) then 2 else 0))
  unfolding remove_responder get_responder table_get table_remove
  get_responder-remove resp_map command m v j = (
    ap (λ t. table_get responder_key t j) (remove_responder_table resp_map command m)
        ∙ (remove-lookup responder_key resp_map command m v j).1,
    ground arith,
  )
