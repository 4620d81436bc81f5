-- ===== src/Examples/Client/Calls.antt =====
-- What do_sum_call (examples/sumclient.c) calls.
use libamp.Common.{
  ℕ, ◌+◌, ◌%◌, ◌^◌, ◌<◌, take, take_all, ◌≡◌, refl, ap, ◌∙◌, arith, true, false, some, length, ltb,
}
use libamp.Common.Int.{ℤ, ◌+ℤ◌}
use libamp.CString.{Bytes, codes, str_eq, strlen, c_str, bytes_eq}
use libamp.Memory.{Memory}
use libamp.Memory.Plenty.{IsPlenty, IsPlenty-after}
use libamp.Box.{Box, empty_box, amp_new_box}
use libamp.Box.Plenty.{new_box_got}
use libamp.Box.Stored.{IsGood, IsKey}
use libamp.Types.{amp_put_long_long}
use libamp.Types.Texts.{IsLlong}
use libamp.Types.Stored.{put_long_long-IsStored}
use libamp.Messages.Steady.{new_box_steady}
use libamp.Errors.{ok}
use libamp.Box.Serialize.{amp_serialize_box}
use libamp.Dispatch.{callback_key}
use libamp.Table.Laws.{IsTable}
use libamp.Calls.{Peer, Output, amp_call}
use libamp.Calls.Laws.{outstanding}
use libamp.Calls.Written.{IsCall, call_written}
use libamp.Examples.Server.{sum_command}
use libamp.Examples.Server.Sums.{empty_box-IsGood}
use libamp.Examples.Sum.{IsSum, sum_command-IsText}
use libamp.Examples.Client.{
  SumState, System, returned, operand, client_write, sum_called, do_sum_call,
}

number_keys : IsKey (codes "a") × IsKey (codes "b") × (str_eq (codes "a") (codes "b") ≡ false)
unfolding strlen c_str str_eq bytes_eq
number_keys = (
  record { fits = refl; octets = omega arith },
  record { fits = refl; octets = omega arith },
  refl,
)

module _ {F A I : Type 0} (sys : System I) where
  -- For two operands in the array with a sum that is a `long long`, amp_call is called with them.
  pub do_sum_call_calls :
      (out : Output F A (SumState I)) (garbage : ℕ) (resp : F) (arg : A)
      (proto : Peer F A (SumState I)) (m : Memory)
      → (let i = proto.app.idx in
          let a = proto.app.operands i in
          let b = proto.app.operands (i + 1) in
          i + 1 < 50
          → IsLlong a
          → IsLlong b
          → IsLlong (a +ℤ b)
          → IsPlenty m
          → (args : Box) × (m1 : Memory) × IsGood args
            × IsSum args a b
            × IsPlenty m1
            × (do_sum_call sys out garbage resp arg proto m
                ≡ some (
                    sum_called sys (
                      amp_call out garbage
                        (record proto { app = record (proto.app) { idx = i + 1 } })
                        sum_command
                        args
                        resp
                        arg
                        m1))))
  unfolding do_sum_call operand
  do_sum_call_calls out garbage resp arg proto m small a_fits b_fits total_fits plenty =
      let i = proto.app.idx in
      let a = proto.app.operands i in
      let b = proto.app.operands (i + 1) in
      let made = new_box_got m plenty in
      let m1 = (amp_new_box m).1 in
      let (a_key, b_key, apart) = number_keys in
      let put1 = amp_put_long_long empty_box (codes "a") a m1 in
      let (done1, stored1, plenty1) =
        put_long_long-IsStored empty_box (codes "a") a m1 a_fits empty_box-IsGood a_key
          (IsPlenty-after m m1 (new_box_steady m) plenty) in
      let put2 = amp_put_long_long put1.1 (codes "b") b put1.2 in
      let (done2, stored2, plenty2) =
        put_long_long-IsStored put1.1 (codes "b") b put1.2 b_fits stored1.good b_key plenty1 in
      let test1 : ltb i 50 ≡ true = ground (arith, small) in
      let test2 : ltb (i + 1) 50 ≡ true = ground (arith, small) in
      (
        put2.1,
        put2.2,
        stored2.good,
        record {
          first = stored2.others (codes "a") apart ∙ stored1.found;
          second = stored2.found;
          a_fits = a_fits;
          b_fits = b_fits;
          total_fits = total_fits;
        },
        plenty2,
        rw (made, test1, test2, do_sum_call, operand) refl,
      )

  -- What a call of do_sum_call leaves: a packet in flight, and a callback that waits.
  pub record IsSent (resp : F) (arg : A) (peer peer' : Peer F A (SumState I)) (bytes : Bytes)
      (a b : ℤ) : Type 0 where
    pub args : Box
    pub packet : Box
    pub m0 : Memory
    pub key : ℕ
    pub small : key < 2 ^ 32
    pub sum : IsSum args a b
    pub call : IsCall args sum_command key packet
    pub written : (amp_serialize_box packet m0).0 ≡ ok (bytes, length bytes)
    pub table : IsTable callback_key peer'.outstanding_requests
    pub waits : outstanding peer' key ≡ some (record { ask_key = key; func = resp; arg = arg })
    pub state : peer'.app ≡ (record (peer.app) {
      last_ask_key = key;
      idx = peer.app.idx + 1;
      io = sys.send bytes peer.app.io;
    })

  -- Its call is sent.
  pub do_sum_call-IsSent :
      (out : Output F A (SumState I)) (garbage : ℕ) (resp : F) (arg : A)
      (peer : Peer F A (SumState I)) (m : Memory)
      → (let i = peer.app.idx in
          let a = peer.app.operands i in
          let b = peer.app.operands (i + 1) in
          out.write ≡ some (client_write sys)
          → IsTable callback_key peer.outstanding_requests
          → i + 1 < 50
          → IsLlong a
          → IsLlong b
          → IsLlong (a +ℤ b)
          → IsPlenty m
          → (peer' : Peer F A (SumState I)) × (m' : Memory) × (bytes : Bytes) × IsSent resp arg peer
              peer' bytes a b
            × IsPlenty m'
            × (do_sum_call sys out garbage resp arg peer m ≡ some (returned peer' m')))
  unfolding client_write sum_called
  do_sum_call-IsSent out garbage resp arg peer m set v small a_fits b_fits total_fits plenty =
      let i = peer.app.idx in
      let peer1 : Peer F A (SumState I) = record peer { app = record (peer.app) { idx = i + 1 } } in
      let key = (peer.last_ask_key + 1) % 2 ^ 32 in
      let (args, m1, good, s, plenty1, called_sum) =
        do_sum_call_calls out garbage resp arg peer m small a_fits b_fits total_fits plenty in
      let (packet, bytes, before, m0, m2, call, calling, plenty2, written, went) =
        call_written (client_write sys) out garbage peer1 sum_command args resp arg m1 set v
          sum_command-IsText good plenty1 in
      let same : take (length bytes) bytes ≡ bytes = take_all (length bytes) bytes (omega arith) in
      (
        record before {
          app = record (before.app) {
            last_ask_key = key;
            io = sys.send (take (length bytes) bytes) before.app.io;
          };
        },
        m2,
        bytes,
        record {
          args = args;
          packet = packet;
          m0 = m0;
          key = key;
          small = omega arith;
          sum = s;
          call = call;
          written = written;
          table = calling.table;
          waits = calling.waits key ∙ ground arith;
          state = rw (same, calling.app_kept) refl;
        },
        plenty2,
        called_sum ∙ ap (λ c. some (sum_called sys c)) went,
      )
