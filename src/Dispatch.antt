-- ===== src/Dispatch.antt =====
-- The maps of outstanding requests and of responders (dispatch.c), on the tables of table.c. `F` is
-- the type of the handler functions, and `A` that of the arguments that the application passes.
pub mod Laws
use libamp.Common.{ℕ, ◌≡◌, Option, none, some, arith, ◌==◌, true, if◌then◌else◌}
use libamp.CString.{Bytes}
use libamp.CString.Laws.{responder_key}
use libamp.Memory.{Memory, malloc, release}
use libamp.Hashing.{Hashing}
use libamp.Table.{Table, table_new, table_get, table_put, table_remove, table_free}

pub same_symm : (a b : ℕ) → (a == b) ≡ (b == a)
same_symm a b = ground arith

pub same_trans : (a b c : ℕ) → (a == b) ≡ true → (b == c) ≡ true → (a == c) ≡ true
same_trans a b c p q = ground arith

pub same→eq : (a b : ℕ) → (a == b) ≡ true → a ≡ b
same→eq a b p = ground arith

pub same_refl : (a : ℕ) → (a == a) ≡ true
same_refl a = ground arith

-- cmp_callback_key and hash_callback_key: ask keys are `unsigned int`s.
abbrev pub callback_key : Hashing ℕ
callback_key = record {
  matches = λ x y. x == y;
  hash = λ key. key;
  matches_refl = same_refl;
  matches_symm = same_symm;
  matches_trans = same_trans;
  hash-matches = same→eq;
}

-- struct _AMP_Callback
pub record Callback (F A : Type 0) : Type 0 where
  pub ask_key : ℕ
  pub func : F
  pub arg : A

-- struct _AMP_Responder
pub record Responder (F A : Type 0) : Type 0 where
  pub command : Bytes
  pub func : F
  pub arg : A

module _ {F A : Type 0} where
  -- The fresh block's `ask_key` is not set here: it is whatever the memory holds.
  unfoldable pub new_callback : ℕ → F → A → Memory → Option (Callback F A) × Memory
  unfolding malloc
  new_callback garbage func arg m =
      let (got, m') = malloc m in
      if got then (some (record { ask_key = garbage; func = func; arg = arg }), m') else (none, m')

  unfoldable pub new_callback_map : Memory → Option (Option (Table ℕ (Callback F A)) × Memory)
  new_callback_map m = table_new 0 m

  unfoldable pub put_callback :
      Table ℕ (Callback F A) → ℕ → Callback F A → Memory → ℕ × Table ℕ (Callback F A) × Memory
  put_callback cb_map ask_key callback m =
      table_put callback_key cb_map ask_key (record callback { ask_key = ask_key }) m

  unfoldable pub pop_callback :
      Table ℕ (Callback F A) → ℕ → Memory → Option (Callback F A) × Table ℕ (Callback F A) × Memory
  pop_callback cb_map ask_key m = table_remove callback_key cb_map ask_key m

  unfoldable pub free_callback_map : Table ℕ (Callback F A) → Memory → Memory
  free_callback_map cb_map m = table_free cb_map m

  unfoldable pub free_callback : Callback F A → Memory → Memory
  free_callback callback m = release 1 m

  -- Likewise for `command`.
  unfoldable pub new_responder : Bytes → F → A → Memory → Option (Responder F A) × Memory
  unfolding malloc
  new_responder garbage func arg m =
      let (got, m') = malloc m in
      if got then (some (record { command = garbage; func = func; arg = arg }), m') else (none, m')

  unfoldable pub new_responder_map : Memory → Option (Option (Table Bytes (Responder F A)) × Memory)
  new_responder_map m = table_new 0 m

  -- The code that Table_put answers is dropped.
  unfoldable pub put_responder :
      Table Bytes (Responder F A)
      → Bytes
      → Responder F A
      → Memory
      → Table Bytes (Responder F A) × Memory
  put_responder resp_map command responder m =
      let (_, resp_map', m') =
        table_put responder_key resp_map command (record responder { command = command }) m in
      (resp_map', m')

  unfoldable pub get_responder : Table Bytes (Responder F A) → Bytes → Option (Responder F A)
  get_responder resp_map command = table_get responder_key resp_map command

  unfoldable pub free_responder : Responder F A → Memory → Memory
  free_responder responder m = release 1 m

  unfoldable pub remove_responder :
      Table Bytes (Responder F A) → Bytes → Memory → Table Bytes (Responder F A) × Memory
  unfolding free_responder
  remove_responder resp_map command m =
      let (resp, resp_map', m') = table_remove responder_key resp_map command m in
      elim resp [ some r ↦ (resp_map', free_responder r m') | none ↦ (resp_map', m') ]

  unfoldable pub free_responder_map : Table Bytes (Responder F A) → Memory → Memory
  free_responder_map resp_map m = table_free resp_map m
