-- ===== src/Types/Stored.antt =====
-- The typed puts of types.c, with an allocator that never fails.
use libamp.Common.{ℕ, ◌^◌, ◌<◌, ◌≤◌, ◌≢◌, arith, length, All}
use libamp.Common.Int.{ℤ, pos}
use libamp.CString.{Bytes, strlen}
use libamp.CString.Laws.{c_str_id}
use libamp.Memory.{Memory}
use libamp.Memory.Plenty.{IsPlenty}
use libamp.Box.{Box, put_buf}
use libamp.Box.Octets.{IsByteString}
use libamp.Box.Stored.{IsGood, IsKey, Stores, put_buf-IsStored}
use libamp.Types.{
  amp_put_cstring, amp_put_uint, amp_put_long_long, print_to, uint_buf_len, llong_buf_len,
}
use libamp.Types.Decimal.{show_ℕ, show_ℤ}
use libamp.Types.Texts.{IsLlong, IsWhole, uint-IsWhole, llong-IsWhole}

-- A text is printed to a buffer that holds it, and put.
put_text-IsStored :
    (buf_len : ℕ) (text : Bytes) (box : Box) (key : Bytes) (m : Memory)
    → IsWhole buf_len text
    → buf_len ≤ 65535
    → IsGood box
    → IsKey key
    → IsPlenty m
    → (let buf = print_to buf_len text in
        Stores box key text (put_buf box key buf (pos (strlen buf)) m))
put_text-IsStored buf_len text box key m w few good k plenty =
    rw (w.whole, w.size)
      (put_buf-IsStored box key text m good k w.octets (omega (arith, w.short, few)) plenty)

pub put_uint-IsStored :
    (box : Box) (key : Bytes) (v : ℕ) (m : Memory)
    → v < 2 ^ 32
    → IsGood box
    → IsKey key
    → IsPlenty m
    → Stores box key (show_ℕ v) (amp_put_uint box key v m)
unfolding amp_put_uint
put_uint-IsStored box key v m small good k plenty =
    put_text-IsStored uint_buf_len (show_ℕ v) box key m (uint-IsWhole v small) (omega arith) good k
      plenty

pub put_long_long-IsStored :
    (box : Box) (key : Bytes) (v : ℤ) (m : Memory)
    → IsLlong v
    → IsGood box
    → IsKey key
    → IsPlenty m
    → Stores box key (show_ℤ v) (amp_put_long_long box key v m)
unfolding amp_put_long_long
put_long_long-IsStored box key v m h good k plenty =
    put_text-IsStored llong_buf_len (show_ℤ v) box key m (llong-IsWhole v h) (omega arith) good k
      plenty

-- A text with no terminator in it.
pub record IsText (text : Bytes) : Type 0 where
  pub clean : All (λ c. c ≢ 0) text
  pub octets : IsByteString text
  pub short : length text ≤ 65535

pub put_cstring-IsStored :
    (box : Box) (key text : Bytes) (m : Memory)
    → IsText text
    → IsGood box
    → IsKey key
    → IsPlenty m
    → Stores box key text (amp_put_cstring box key text m)
unfolding amp_put_cstring strlen
put_cstring-IsStored box key text m t good k plenty =
    rw (c_str_id text t.clean) (put_buf-IsStored box key text m good k t.octets t.short plenty)
