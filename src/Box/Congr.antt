-- ===== src/Box/Congr.antt =====
-- _amp_put_buf (box.c) reads its key up to the terminator, and as many bytes of the buffer as it is
-- told.
use libamp.Common.{ℕ, ◌≡◌, ap, arith, take, length, true}
use libamp.Common.Int.{pos}
use libamp.CString.{Bytes, c_str, strlen, str_eq}
use libamp.CString.Laws.{box_key, eq→str_eq}
use libamp.Hashing.Buckets.{view_congr}
use libamp.Hashing.Writes.{rewrite_congr}
use libamp.Memory.{Memory, malloc}
use libamp.Box.{Box, KeyValue, key_of, store, put_buf, new_key_value}

store_congr :
    (box : Box) (j k : Bytes) (e : KeyValue) (m : Memory)
    → c_str j ≡ c_str k
    → store box j e m ≡ store box k e m
unfolding store
store_congr box j k e m p =
    let q : str_eq j k ≡ true = eq→str_eq j k p in
    ground (
      arith,
      view_congr box_key key_of box.buckets j k q,
      rewrite_congr box_key key_of box.buckets j k (λ _. e) q,
    )

strlen_congr : (j k : Bytes) → c_str j ≡ c_str k → strlen j ≡ strlen k
unfolding strlen
strlen_congr j k p = ap length p

new_key_value_congr :
    (j k a b : Bytes) (n : ℕ)
    → c_str j ≡ c_str k
    → take n a ≡ take n b
    → new_key_value j a n ≡ new_key_value k b n
unfolding new_key_value strlen
new_key_value_congr j k a b n p q = cc

pub put_buf_congr :
    (box : Box) (j k a b : Bytes) (n : ℕ) (m : Memory)
    → c_str j ≡ c_str k
    → take n a ≡ take n b
    → put_buf box j a (pos n) m ≡ put_buf box k b (pos n) m
unfolding put_buf
put_buf_congr box j k a b n m p q = cc (
  strlen_congr j k p,
  new_key_value_congr j k a b n p q,
  store_congr box j k (new_key_value k b n) (malloc m).1 p,
)
