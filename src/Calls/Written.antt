-- ===== src/Calls/Written.antt =====
-- What amp_call (amp.c) writes, with an allocator that never fails.
use libamp.Common.{
  ℕ, ◌+◌, ◌%◌, ◌^◌, ◌≡◌, refl, ◌∙◌, arith, false, some, ◌==◌, if◌then◌else◌, length,
}
use libamp.CString.{Bytes, str_eq, strlen, c_str, bytes_eq}
use libamp.Memory.{Memory, malloc}
use libamp.Memory.Plenty.{IsPlenty, IsPlenty-after}
use libamp.Errors.{ok}
use libamp.Box.{Box, get_buf}
use libamp.Box.Plenty.{found_serialized}
use libamp.Box.Stored.{IsGood, IsStored, IsKey}
use libamp.Box.Serialize.{amp_serialize_box}
use libamp.Types.{amp_put_cstring, amp_put_uint}
use libamp.Types.Decimal.{show_ℕ}
use libamp.Types.Stored.{IsText, put_cstring-IsStored, put_uint-IsStored}
use libamp.Table.{table_put}
use libamp.Table.Laws.{IsTable, put-IsTable, put-lookup}
use libamp.Dispatch.{Callback, callback_key, put_callback, new_callback}
use libamp.Messages.{command_key, ask, answer}
use libamp.Messages.Steady.{serialize_steady}
use libamp.Calls.{
  Peer, WriteHandler, Output, Called, amp_call, call_with, send, do_write, finish, amp_next_ask_key,
}
use libamp.Calls.Laws.{outstanding}

-- The keys of the protocol may be stored under.
pub command_key-IsKey : IsKey command_key
unfolding strlen c_str
command_key-IsKey = record { fits = refl; octets = omega arith }

pub ask-IsKey : IsKey ask
unfolding strlen c_str
ask-IsKey = record { fits = refl; octets = omega arith }

pub answer-IsKey : IsKey answer
unfolding strlen c_str
answer-IsKey = record { fits = refl; octets = omega arith }

pub keys_apart :
    (str_eq command_key ask ≡ false)
    × (str_eq ask command_key ≡ false)
    × (str_eq command_key answer ≡ false)
    × (str_eq answer command_key ≡ false)
unfolding str_eq c_str bytes_eq
keys_apart = (refl, refl, refl, refl)

-- The packet of a call: the arguments with the command and the ask key.
pub record IsCall (args : Box) (command : Bytes) (key : ℕ) (packet : Box) : Type 0 where
  pub good : IsGood packet
  pub named : get_buf packet command_key ≡ ok (command, length command)
  pub asked : get_buf packet ask ≡ ok (show_ℕ key, length (show_ℕ key))
  pub args_kept :
      (j : Bytes)
      → str_eq j command_key ≡ false
      → str_eq j ask ≡ false
      → get_buf packet j ≡ get_buf args j

-- The command and then the ask key are put.
call-IsCall :
    (args named packet : Box) (command : Bytes) (key : ℕ)
    → IsStored args command_key command named
    → IsStored named ask (show_ℕ key) packet
    → IsCall args command key packet
call-IsCall args named packet command key s t =
    let (apart, apart', apart'', apart''') = keys_apart in
    record {
      good = t.good;
      named = t.others command_key apart ∙ s.found;
      asked = t.found;
      args_kept = λ j p q. t.others j q ∙ s.others j p;
    }

new_callback-IsPlenty :
    {F A : Type 0} (garbage : ℕ) (func : F) (arg : A) (m : Memory)
    → IsPlenty m
    → (let new = new_callback garbage func arg m in
        (new.0 ≡ some (record { ask_key = garbage; func = func; arg = arg }))
        × (new.1.succeeds ≡ m.succeeds))
unfolding new_callback malloc
new_callback-IsPlenty garbage func arg m plenty = let got = plenty m.calls in ground (arith, got)

module _ {F A S : Type 0} where
  -- The object that the write handler of a call is given.
  pub record IsCalling (peer : Peer F A S) (key : ℕ) (cb : Callback F A) (before : Peer F A S)
      : Type 0 where
    pub waits :
        (j : ℕ)
        → outstanding before j
          ≡ (if j == key then some (record cb { ask_key = key }) else outstanding peer j)
    pub table : IsTable callback_key before.outstanding_requests
    pub last_key : before.last_ask_key ≡ key
    pub responders_kept : before.responders ≡ peer.responders
    pub app_kept : before.app ≡ peer.app

  put_callback-IsPlenty :
      (peer : Peer F A S) (key : ℕ) (cb : Callback F A) (m : Memory)
      → IsPlenty m
      → (let put = put_callback peer.outstanding_requests key cb m in
          (put.0 ≡ 0) × (put.2.succeeds ≡ m.succeeds))
  unfolding put_callback table_put
  put_callback-IsPlenty peer key cb m plenty = let got = plenty m.calls in ground (arith, got)

  calling :
      (peer : Peer F A S) (key : ℕ) (cb : Callback F A) (m : Memory)
      → IsPlenty m
      → IsTable callback_key peer.outstanding_requests
      → (let put = put_callback peer.outstanding_requests key cb m in
          IsCalling peer key cb (record peer { last_ask_key = key; outstanding_requests = put.1 }))
  unfolding put_callback
  calling peer key cb m plenty v =
      let stored : Callback F A = record cb { ask_key = key } in
      let done = (put_callback-IsPlenty peer key cb m plenty).0 in
      record {
        waits = λ j.
            ground
              (arith, done, put-lookup callback_key peer.outstanding_requests key stored m v j);
        table = put-IsTable callback_key peer.outstanding_requests key stored m v;
        last_key = refl;
        responders_kept = refl;
        app_kept = refl;
      }

  -- What a call leaves whose packet was written.
  abbrev pub called : WriteHandler F A S → Bytes → Peer F A S → Memory → ℕ → Box → Called F A S
  called w bytes before m key packet =
      let (ret, peer', m') = w bytes (length bytes) before m in
      record { ret = ret; ask_key = some key; proto = peer'; args = packet; memory = m' }

  -- With a write handler and an allocator that never fails, amp_call adds the command and the next
  -- ask key to the arguments, and hands the bytes of that packet to the write handler, once, when the
  -- callback waits under the key beside the other requests. It returns what the handler returns.
  pub call_written :
      (w : WriteHandler F A S) (out : Output F A S) (garbage : ℕ) (peer : Peer F A S)
      (command : Bytes) (args : Box) (func : F) (arg : A) (m : Memory)
      → out.write ≡ some w
      → IsTable callback_key peer.outstanding_requests
      → IsText command
      → IsGood args
      → IsPlenty m
      → (let key = (peer.last_ask_key + 1) % 2 ^ 32 in
          let cb : Callback F A = record { ask_key = garbage; func = func; arg = arg } in
          (packet : Box) × (bytes : Bytes) × (before : Peer F A S) × (m1 m2 : Memory) × IsCall args
            command key packet
          × IsCalling peer key cb before
          × IsPlenty m2
          × ((amp_serialize_box packet m1).0 ≡ ok (bytes, length bytes))
          × (amp_call out garbage peer command args func arg m
              ≡ called w bytes before m2 key packet))
  unfolding amp_call call_with finish send do_write amp_next_ask_key
  call_written w out garbage peer command args func arg m set v text good plenty =
      let key = (peer.last_ask_key + 1) % 2 ^ 32 in
      let cb : Callback F A = record { ask_key = garbage; func = func; arg = arg } in
      let named = amp_put_cstring args command_key command m in
      let (done1, stored1, plenty1) =
        put_cstring-IsStored args command_key command m text good command_key-IsKey plenty in
      let m2 = (new_callback garbage func arg named.2).1 in
      let (made, steady2) = new_callback-IsPlenty garbage func arg named.2 plenty1 in
      let plenty2 = IsPlenty-after named.2 m2 steady2 plenty1 in
      let put = put_callback peer.outstanding_requests key cb m2 in
      let (done3, steady3) = put_callback-IsPlenty peer key cb m2 plenty2 in
      let plenty3 = IsPlenty-after m2 put.2 steady3 plenty2 in
      let uint = amp_put_uint named.1 ask key put.2 in
      let (done4, stored4, plenty4) =
        put_uint-IsStored named.1 ask key put.2 (omega arith) stored1.good ask-IsKey plenty3 in
      let (bytes, written) =
        found_serialized uint.1 ask (show_ℕ key, length (show_ℕ key)) uint.2 stored4.good.valid
          plenty4 stored4.found in
      let m5 = (amp_serialize_box uint.1 uint.2).1 in
      let before : Peer F A S = record peer { last_ask_key = key; outstanding_requests = put.1 } in
      (
        uint.1,
        bytes,
        before,
        uint.2,
        m5,
        call-IsCall args named.1 uint.1 command key stored1 stored4,
        calling peer key cb m2 plenty2 v,
        IsPlenty-after uint.2 m5 (serialize_steady uint.1 uint.2) plenty4,
        written,
        rw (done1, made, done3, done4, written, set, amp_call, call_with, finish, send, do_write)
            refl,
      )
