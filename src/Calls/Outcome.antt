-- ===== src/Calls/Outcome.antt =====
-- The outcome of a call that wants an answer: the label `error` of _amp_call undoes everything, and
-- otherwise the callback waits for the answer when the packet is written.
use libamp.Common.{
  ℕ, ◌+◌, ◌*◌, ◌%◌, ◌^◌, ◌≡◌, ◌≢◌, refl, arith, true, false, none, some, ◌==◌, if◌then◌else◌,
  Bool-cases, Option-cases, ◌⊎◌, inl, inr,
}
use libamp.Common.Int.{ℤ, pos}
use libamp.CString.{Bytes}
use libamp.Memory.{Memory, malloc, release}
use libamp.Errors.{ok, err}
use libamp.Box.{Box}
use libamp.Box.Put.{put_buf_memory}
use libamp.Box.Serialize.{amp_serialize_box}
use libamp.Types.{amp_put_uint, amp_put_cstring}
use libamp.Table.{Table, table_get}
use libamp.Table.Laws.{IsTable, put-lookup}
use libamp.Dispatch.{Callback, callback_key, put_callback, new_callback}
use libamp.Calls.{
  Peer, WriteHandler, Output, Called, amp_next_ask_key, do_write, send, drop_callback, call_with,
  finish, amp_call,
}
use libamp.Calls.Laws.{outstanding, drop-lookup, drop_memory, put_new_memory}
use libamp.Messages.{ask, command_key}
use libamp.Errors.{Result-cases}

uint_memory :
    (box : Box) (key : Bytes) (v : ℕ) (m : Memory)
    → (amp_put_uint box key v m).2.allocs + m.frees + 2 * box.length
      ≡ m.allocs + (amp_put_uint box key v m).2.frees + 2 * (amp_put_uint box key v m).1.length
unfolding amp_put_uint
uint_memory box key v m = put_buf_memory box key _ _ m

cstring_memory :
    (box : Box) (key value : Bytes) (m : Memory)
    → (amp_put_cstring box key value m).2.allocs + m.frees + 2 * box.length
      ≡ m.allocs
        + (amp_put_cstring box key value m).2.frees
        + 2 * (amp_put_cstring box key value m).1.length
unfolding amp_put_cstring
cstring_memory box key value m = put_buf_memory box key _ _ m

serialize_failed :
    (box : Box) (m : Memory) (e : ℕ)
    → (amp_serialize_box box m).0 ≡ err e
    → (e ≢ 0)
      × ((amp_serialize_box box m).1.allocs ≡ m.allocs)
      × ((amp_serialize_box box m).1.frees ≡ m.frees)
unfolding amp_serialize_box malloc
serialize_failed box m e failed = ground (arith, failed)

put_memory :
    {F A : Type 0} (t : Table ℕ (Callback F A)) (key : ℕ) (cb : Callback F A) (m : Memory)
    → table_get callback_key t key ≡ none
    → (let put = put_callback t key cb m in
        (put.2.allocs ≡ m.allocs + (if put.0 == 0 then 1 else 0)) × (put.2.frees ≡ m.frees))
unfolding put_callback
put_memory t key cb m fresh = put_new_memory t key (record cb { ask_key = key }) m fresh

-- The lookups after a callback has been put.
put_outstanding :
    {F A : Type 0} (t : Table ℕ (Callback F A)) (key : ℕ) (cb : Callback F A) (m : Memory)
    → IsTable callback_key t
    → ((put_callback t key cb m).0 == 0) ≡ true
    → (j : ℕ)
    → table_get callback_key (put_callback t key cb m).1 j
      ≡ (if j == key then some (record cb { ask_key = key }) else table_get callback_key t j)
unfolding put_callback
put_outstanding t key cb m v done j =
    ground (arith, done, put-lookup callback_key t key (record cb { ask_key = key }) m v j)

module _ {F A : Type 0} where
  new_callback_failed :
      (garbage : ℕ) (func : F) (arg : A) (m : Memory)
      → m.succeeds m.calls ≡ false
      → ((new_callback garbage func arg m).0 ≡ none)
        × ((new_callback garbage func arg m).1.allocs ≡ m.allocs)
        × ((new_callback garbage func arg m).1.frees ≡ m.frees)
  unfolding new_callback malloc
  new_callback_failed garbage func arg m out = ground (arith, out)

  new_callback_done :
      (garbage : ℕ) (func : F) (arg : A) (m : Memory)
      → m.succeeds m.calls ≡ true
      → ((new_callback garbage func arg m).0
          ≡ some (record { ask_key = garbage; func = func; arg = arg }))
        × ((new_callback garbage func arg m).1.allocs ≡ m.allocs + 1)
        × ((new_callback garbage func arg m).1.frees ≡ m.frees)
  unfolding new_callback malloc
  new_callback_done garbage func arg m got = ground (arith, got)

module _ {F A S : Type 0} where
  send_failed :
      (out : Output F A S) (proto : Peer F A S) (args : Box) (m : Memory) (ret : ℕ)
      → (amp_serialize_box args m).0 ≡ err ret
      → send out proto args m ≡ (err ret, (amp_serialize_box args m).1)
  unfolding send
  send_failed out proto args m ret failed = ground (arith, failed)

  send_done :
      (out : Output F A S) (proto : Peer F A S) (args : Box) (m : Memory) (buf : Bytes) (size : ℕ)
      → (amp_serialize_box args m).0 ≡ ok (buf, size)
      → send out proto args m ≡ (
        ok (do_write out buf size proto (amp_serialize_box args m).1),
        (amp_serialize_box args m).1,
      )
  unfolding send
  send_done out proto args m buf size good = ground (arith, good)

  -- A write handler that is set got the bytes and gave the answer. With none the answer is 1, the
  -- bytes are freed, and the same requests wait.
  abbrev pub Delivered :
      Output F A S → Bytes → ℕ → Peer F A S → Memory → ℤ × Peer F A S × Memory → Type 0
  Delivered out buf size before m r =
      ((w : WriteHandler F A S) × (out.write ≡ some w) × (r ≡ w buf size before m))
      ⊎ ((out.write ≡ none)
          × (r.0 ≡ pos 1)
          × ((j : ℕ) → outstanding r.1 j ≡ outstanding before j)
          × (r.2.frees ≡ m.frees + 1))

  do_write-Delivered :
      (out : Output F A S) (buf : Bytes) (size : ℕ) (before : Peer F A S) (m : Memory)
      → Delivered out buf size before m (do_write out buf size before m)
  unfolding do_write release
  do_write-Delivered out buf size before m = elim (Option-cases out.write) [
    | inl e ↦ rw (e, do_write) (inr (refl, refl, λ j. refl, refl))
    | inr (w, e) ↦ rw (e, do_write) (inl (w, refl, refl))
  ]

  -- The packet of the box was passed to _amp_do_write, in a protocol object where the callback waits
  -- under `key`.
  abbrev pub Written : Output F A S → Peer F A S → ℕ → Callback F A → Called F A S → Type 0
  Written out proto key cb r =
      (buf : Bytes) × (size : ℕ) × (before : Peer F A S) × (m1 m2 : Memory) × ((amp_serialize_box
          r.args m1).0
        ≡ ok (buf, size))
      × ((r.ret, r.proto, r.memory) ≡ do_write out buf size before m2)
      × Delivered out buf size before m2 (r.ret, r.proto, r.memory)
      × ((j : ℕ)
          → outstanding before j
            ≡ (if j == key then some (record cb { ask_key = key }) else outstanding proto j))

  -- An error, with the requests as they were, and `extra` blocks freed beside what the box of
  -- arguments has gained.
  abbrev pub Undone : Peer F A S → Box → Memory → ℕ → Called F A S → Type 0
  Undone proto args m extra r =
      (r.ret ≢ pos 0)
      × ((j : ℕ) → outstanding r.proto j ≡ outstanding proto j)
      × (r.memory.allocs + m.frees + 2 * args.length + extra
          ≡ m.allocs + r.memory.frees + 2 * r.args.length)

  module _ (out : Output F A S) (proto : Peer F A S) (args : Box) (cb : Callback F A) (m : Memory)
      (v : IsTable callback_key proto.outstanding_requests) where
    -- The label `error`, reached with the memory `mm`.
    drop-Undone :
        (key ret : ℕ) (args' : Box) (mm : Memory)
        → outstanding proto key ≡ none
        → ret ≢ 0
        → (let put = put_callback proto.outstanding_requests key cb m in
            mm.allocs + put.2.frees + 2 * args.length ≡ put.2.allocs + mm.frees + 2 * args'.length
            → Undone proto args m 1 (
                drop_callback ret
                  (record proto { last_ask_key = key; outstanding_requests = put.1 })
                  key
                  cb
                  args'
                  mm))
    unfolding drop_callback
    drop-Undone key ret args' mm fresh nonzero gained =
        let proto1 : Peer F A S = record proto { last_ask_key = key } in
        let dropped = drop_memory proto1 key cb m v fresh ret args' mm in
        let put = put_memory proto.outstanding_requests key cb m fresh in
        (
          λ e. nonzero (ground (arith, e)),
          λ j. drop-lookup proto1 key cb m v fresh ret args' mm j,
          ground (arith, dropped, put, gained),
        )

    call_with_outcome :
        (let key = (proto.last_ask_key + 1) % 2 ^ 32 in
          outstanding proto key ≡ none
          → Written out proto key cb (call_with out proto args cb m)
            ⊎ Undone proto args m 1 (call_with out proto args cb m))
    unfolding call_with amp_next_ask_key finish
    call_with_outcome fresh =
        let key = (proto.last_ask_key + 1) % 2 ^ 32 in
        let put = put_callback proto.outstanding_requests key cb m in
        let uint = amp_put_uint args ask key put.2 in
        let packet = amp_serialize_box uint.1 uint.2 in
        let gained = uint_memory args ask key put.2 in
        let proto2 : Peer F A S = record proto {
          last_ask_key = key;
          outstanding_requests = put.1;
        } in
        elim (Bool-cases (put.0 == 0)) [
          | inr e ↦
              rw (e, call_with)
                (inr (drop-Undone key put.0 args put.2 fresh (ground arith) (omega arith)))
          | inl e ↦ elim (Bool-cases (uint.0 == 0)) [
            | inr e2 ↦
                rw (e, e2, call_with)
                  (inr (drop-Undone key uint.0 uint.1 uint.2 fresh (ground arith) gained))
            | inl e2 ↦ elim (Result-cases packet.0) [
              | inr (ret, failed) ↦
                  let (nonzero, same_allocs, same_frees) =
                    serialize_failed uint.1 uint.2 ret failed in
                  rw (e, e2, send_failed out proto2 uint.1 uint.2 ret failed, finish, call_with)
                    (inr (
                      drop-Undone key ret uint.1 packet.1 fresh nonzero
                        (omega (arith, same_allocs, same_frees, gained))))
              | inl ((buf, size), good) ↦
                  rw (e, e2, send_done out proto2 uint.1 uint.2 buf size good, finish, call_with)
                    (inl (
                      buf,
                      size,
                      proto2,
                      uint.2,
                      packet.1,
                      good,
                      refl,
                      do_write-Delivered out buf size proto2 packet.1,
                      put_outstanding proto.outstanding_requests key cb m v e,
                    ))
            ]
          ]
        ]

  weaken-Undone :
      (proto : Peer F A S) (args args1 : Box) (m m2 : Memory) (r : Called F A S)
      → m2.allocs + m.frees + 2 * args.length ≡ m.allocs + m2.frees + 2 * args1.length + 1
      → Undone proto args1 m2 1 r
      → Undone proto args m 0 r
  weaken-Undone proto args args1 m m2 r gained (nonzero, same, balance) =
      (nonzero, same, omega (arith, gained, balance))

  -- amp_call on a well-formed map of requests where none waits under the next ask key. Either the
  -- box of arguments is serialized and the bytes are passed to _amp_do_write, and at that point the
  -- callback waits under the key beside all other requests. A write handler that is set gets the
  -- bytes and its answer is returned; with none set a message is logged, the bytes are freed, the
  -- answer is 1 and the callback is still left waiting. Or no bytes were passed on: then the
  -- answer is an error, the waiting requests are as before, and the blocks that are still allocated
  -- are exactly those of the pairs that the box of arguments has gained.
  pub call_outcome :
      (out : Output F A S) (garbage : ℕ) (proto : Peer F A S) (command : Bytes) (args : Box)
      (func : F) (arg : A) (m : Memory)
      → IsTable callback_key proto.outstanding_requests
      → outstanding proto ((proto.last_ask_key + 1) % 2 ^ 32) ≡ none
      → Written out proto
          ((proto.last_ask_key + 1) % 2 ^ 32)
          (record { ask_key = garbage; func = func; arg = arg })
          (amp_call out garbage proto command args func arg m)
        ⊎ Undone proto args m 0 (amp_call out garbage proto command args func arg m)
  unfolding amp_call
  call_outcome out garbage proto command args func arg m v fresh =
      let named = amp_put_cstring args command_key command m in
      let gained = cstring_memory args command_key command m in
      let cb : Callback F A = record { ask_key = garbage; func = func; arg = arg } in
      let m2 = (new_callback garbage func arg named.2).1 in
      elim (Bool-cases (named.0 == 0)) [
        | inr e ↦
            rw (e, amp_call) (inr (λ p. ground (arith, e, p), λ j. refl, omega (arith, gained)))
        | inl e ↦ elim (Bool-cases (named.2.succeeds named.2.calls)) [
          | inr out ↦
              let (none_made, same, kept) = new_callback_failed garbage func arg named.2 out in
              rw (e, none_made, amp_call)
                (inr (λ p. ground (arith, p), λ j. refl, omega (arith, gained, same, kept)))
          | inl got ↦
              let (made, more, kept) = new_callback_done garbage func arg named.2 got in
              rw (e, made, amp_call)
                (elim (call_with_outcome out proto named.1 cb m2 v fresh) [
                  | inl written ↦ inl written
                  | inr undone ↦ inr (
                      weaken-Undone proto args named.1 m m2 (call_with out proto named.1 cb m2)
                        (omega (arith, gained, more, kept)) undone)
                ])
        ]
      ]
