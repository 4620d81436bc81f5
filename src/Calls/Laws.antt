-- ===== src/Calls/Laws.antt =====
-- What a call leaves behind: either a registered callback and a packet that was written, or what was
-- there before it.
use libamp.Common.{ℕ, ◌+◌, ◌≡◌, ◌∙◌, arith, Option, none, ◌==◌, if◌then◌else◌, is_some}
use libamp.Memory.{Memory, release}
use libamp.Box.{Box}
use libamp.Table.{Table, table_get, table_put, table_remove}
use libamp.Table.Laws.{IsTable, put-lookup, put-IsTable, remove-lookup}
use libamp.Dispatch.{Callback, callback_key, put_callback, pop_callback, free_callback, same→eq}
use libamp.Calls.{Peer, drop_callback}

module _ {V : Type 0} (t : Table ℕ V) (key : ℕ) (value : V) (m : Memory) where
  pub put_new_memory :
      table_get callback_key t key ≡ none
      → ((table_put callback_key t key value m).2.allocs
          ≡ m.allocs + (if (table_put callback_key t key value m).0 == 0 then 1 else 0))
        × ((table_put callback_key t key value m).2.frees ≡ m.frees)
  unfolding table_get table_put
  put_new_memory fresh = ground arith

  remove_memory :
      ((table_remove callback_key t key m).2.allocs ≡ m.allocs)
      × ((table_remove callback_key t key m).2.frees
          ≡ m.frees + (if is_some (table_get callback_key t key) then 1 else 0))
  unfolding table_get table_remove
  remove_memory = ground arith

module _ {F A S : Type 0} where
  -- The lookups of outstanding requests.
  abbrev pub outstanding : Peer F A S → ℕ → Option (Callback F A)
  outstanding proto = table_get callback_key proto.outstanding_requests

  module _ (proto : Peer F A S) (key : ℕ) (cb : Callback F A) (m0 : Memory)
      (v : IsTable callback_key proto.outstanding_requests)
      (fresh : outstanding proto key ≡ none) where
    -- A callback that was put under a new key, and is dropped again, leaves no trace.
    pub drop-lookup :
        (ret : ℕ) (args : Box) (m : Memory) (j : ℕ)
        → (let put = put_callback proto.outstanding_requests key cb m0 in
            let r =
              drop_callback ret (record proto { outstanding_requests = put.1 }) key cb args m in
            outstanding r.proto j ≡ outstanding proto j)
    unfolding drop_callback put_callback pop_callback
    drop-lookup ret args m j =
        let value : Callback F A = record cb { ask_key = key } in
        let put = table_put callback_key proto.outstanding_requests key value m0 in
        let v' = put-IsTable callback_key proto.outstanding_requests key value m0 v in
        (remove-lookup callback_key put.1 key m v' j).1
        ∙ ground (
          arith,
          fresh,
          put-lookup callback_key proto.outstanding_requests key value m0 v j,
          same→eq j key,
        )

    pub drop_memory :
        (ret : ℕ) (args : Box) (m : Memory)
        → (let put = put_callback proto.outstanding_requests key cb m0 in
            let r =
              drop_callback ret (record proto { outstanding_requests = put.1 }) key cb args m in
            (r.memory.allocs ≡ m.allocs)
            × (r.memory.frees ≡ m.frees + 1 + (if put.0 == 0 then 1 else 0)))
    unfolding drop_callback put_callback pop_callback free_callback release
    drop_memory ret args m =
        let value : Callback F A = record cb { ask_key = key } in
        let put = table_put callback_key proto.outstanding_requests key value m0 in
        ground (
          arith,
          fresh,
          put-lookup callback_key proto.outstanding_requests key value m0 v key,
          callback_key.matches_refl key,
          remove_memory put.1 key value m,
        )
