-- ===== src/Connection/Life.antt =====
-- A protocol object from amp_new_proto to amp_free_proto (amp.c).
use libamp.Common.{
  ℕ, ◌+◌, ◌*◌, ◌≡◌, ◌<◌, ◌∙◌, ap, sym, subst, ◌⊎◌, refl, arith, true, false, Option, none, some,
}
use libamp.CString.{Bytes}
use libamp.CString.Laws.{responder_key}
use libamp.Memory.{Memory, malloc, release}
use libamp.Box.{Box, empty_box, amp_new_box, amp_free_box}
use libamp.Messages.Steady.{malloc_steady}
use libamp.Messages.Laws.{free_box_memory}
use libamp.Box.Valid.{IsValid, empty_box-IsValid}
use libamp.Table.{table_free, empty_table, table_new, num_buckets_for, prime_below}
use libamp.Table.Laws.{IsTable, empty_table-IsTable, table_get-empty, table_free_memory}
use libamp.Dispatch.{
  callback_key, new_callback_map, new_responder_map, free_callback_map, free_responder_map,
  get_responder,
}
use libamp.Parser.Stage.{start}
use libamp.Parser.Represents.{Represents}
use libamp.Calls.Laws.{outstanding}
use libamp.Connection.{Proto, new_parser, amp_free_proto}

-- Blocks that are in use.
abbrev pub SameInUse : Memory → Memory → Type 0
SameInUse m m' = m'.allocs + m.frees ≡ m.allocs + m'.frees

-- One of the next `n` allocations fails.
abbrev pub Fails : Memory → ℕ → Type 0
Fails m n = (j : ℕ) × (j < n) × (m.succeeds (m.calls + j) ≡ false)

pub malloc-Fails : (m : Memory) (n : ℕ) → (malloc m).0 ≡ false → Fails m (n + 1)
unfolding malloc
malloc-Fails m n e =
    let here : m.succeeds m.calls ≡ false = ground (arith, e) in
    let first : m.calls ≡ m.calls + 0 = omega arith in
    (0, omega arith, subst (λ i. m.succeeds i ≡ false) first here)

pub Fails-later : (m : Memory) (n : ℕ) → Fails (malloc m).1 n → Fails m (n + 1)
unfolding malloc
Fails-later m n (j, below, e) =
    let count : (malloc m).1.calls ≡ m.calls + 1 = ground arith in
    let place : (malloc m).1.calls + j ≡ m.calls + (j + 1) = omega (arith, count) in
    (
      j + 1,
      omega (arith, below),
      ap m.succeeds (sym place) ∙ ap (λ f. f ((malloc m).1.calls + j)) (sym (malloc_steady m)) ∙ e,
    )

module _ {F A S : Type 0} where
  -- A protocol object at the start of a connection.
  pub record IsNew (app : S) (proto : Proto F A S) : Type 0 where
    pub begun : Represents proto.parser start
    pub empty : proto.box ≡ some empty_box
    pub calls : IsTable callback_key proto.peer.outstanding_requests
    pub none_waits : (key : ℕ) → outstanding proto.peer key ≡ none
    pub commands : IsTable responder_key proto.peer.responders
    pub none_responds : (command : Bytes) → get_responder proto.peer.responders command ≡ none
    pub app_data : proto.peer.app ≡ app

  abbrev pub fresh_proto : S → Proto F A S
  fresh_proto app = record {
    parser = new_parser;
    box = some empty_box;
    peer = record {
      last_ask_key = 0;
      outstanding_requests = empty_table 127;
      responders = empty_table 127;
      app = app;
    };
  }

  pub fresh_proto-IsNew : (app : S) → IsNew app (fresh_proto app)
  unfolding get_responder
  fresh_proto-IsNew app = record {
    begun = (refl, refl, refl, (refl, refl), refl);
    empty = refl;
    calls = empty_table-IsTable callback_key 127 (omega arith);
    none_waits = table_get-empty callback_key 127;
    commands = empty_table-IsTable responder_key 127 (omega arith);
    none_responds = table_get-empty responder_key 127;
    app_data = refl;
  }

  -- amp_free_proto on an object whose box is not NULL and well formed, and whose two maps are well
  -- formed: its loops free two blocks for each pair of the box, for each request that waits and for
  -- each responder, and with the object, its box and its maps four more.
  pub free_proto_memory :
      (proto : Proto F A S) (box : Box) (m : Memory)
      → proto.box ≡ some box
      → IsValid box
      → IsTable callback_key proto.peer.outstanding_requests
      → IsTable responder_key proto.peer.responders
      → (amp_free_proto proto m).frees ≡ (
          m.frees
          + 2 * (box.length + proto.peer.outstanding_requests.length + proto.peer.responders.length)
          + 4)
  unfolding amp_free_proto release free_callback_map free_responder_map
  free_proto_memory proto box m held valid calls commands =
      let m1 = amp_free_box proto.box m in
      let boxes : m1.frees ≡ m.frees + (2 * box.length + 1) =
        ground (arith, held, valid.counted, free_box_memory box m) in
      let callbacks = table_free_memory callback_key proto.peer.outstanding_requests m1 calls in
      let m2 = free_callback_map proto.peer.outstanding_requests m1 in
      let responders = table_free_memory responder_key proto.peer.responders m2 commands in
      ground (arith, boxes, callbacks, responders)

  -- An object or NULL, and what either goes with.
  abbrev pub Outcome : S → Memory → Option (Option (Proto F A S) × Memory) → Type 0
  Outcome app m r =
      ((proto : Proto F A S) × (m' : Memory) × (r ≡ some (some proto, m'))
        × IsNew app proto
        × (m'.allocs ≡ m.allocs + 4)
        × (m'.frees ≡ m.frees)
        × ((amp_free_proto proto m').frees ≡ m'.frees + 4))
      ⊎ ((m' : Memory) × (r ≡ some (none, m')) × SameInUse m m' × Fails m 4)

pub empty_box_freed :
    (m : Memory)
    → ((amp_free_box (some empty_box) m).allocs ≡ m.allocs)
      × ((amp_free_box (some empty_box) m).frees ≡ m.frees + 1)
unfolding empty_box
empty_box_freed m =
    let counted = empty_box-IsValid.counted in ground (arith, counted, free_box_memory empty_box m)

pub callbacks_freed :
    (F A : Type 0) (m : Memory)
    → ((free_callback_map {F = F} {A = A} (empty_table 127) m).allocs ≡ m.allocs)
      × ((free_callback_map {F = F} {A = A} (empty_table 127) m).frees ≡ m.frees + 1)
unfolding free_callback_map table_free empty_table release
callbacks_freed F A m = ground arith

pub released :
    (m : Memory) → ((release 1 m).allocs ≡ m.allocs) × ((release 1 m).frees ≡ m.frees + 1)
unfolding release
released m = (refl, refl)

pub box_made : (m : Memory) → (malloc m).0 ≡ true → amp_new_box m ≡ (some empty_box, (malloc m).1)
unfolding amp_new_box malloc
box_made m got = ground (arith, got)

pub box_failed : (m : Memory) → (malloc m).0 ≡ false → amp_new_box m ≡ (none, (malloc m).1)
unfolding amp_new_box malloc
box_failed m got = ground (arith, got)

module _ {K V : Type 0} (m : Memory) where
  table_made :
      (malloc m).0 ≡ true
      → table_new {K = K} {V = V} 0 m ≡ some (some (empty_table 127), (malloc m).1)
  unfolding table_new num_buckets_for prime_below malloc
  table_made got = ground (arith, got)

  table_failed : (malloc m).0 ≡ false → table_new {K = K} {V = V} 0 m ≡ some (none, (malloc m).1)
  unfolding table_new num_buckets_for prime_below malloc
  table_failed got = ground (arith, got)

module _ (F A : Type 0) (m : Memory) where
  pub callbacks_made :
      (malloc m).0 ≡ true
      → new_callback_map {F = F} {A = A} m ≡ some (some (empty_table 127), (malloc m).1)
  unfolding new_callback_map
  callbacks_made got = table_made m got

  pub callbacks_failed :
      (malloc m).0 ≡ false → new_callback_map {F = F} {A = A} m ≡ some (none, (malloc m).1)
  unfolding new_callback_map
  callbacks_failed got = table_failed m got

  pub responders_made :
      (malloc m).0 ≡ true
      → new_responder_map {F = F} {A = A} m ≡ some (some (empty_table 127), (malloc m).1)
  unfolding new_responder_map
  responders_made got = table_made m got

  pub responders_failed :
      (malloc m).0 ≡ false → new_responder_map {F = F} {A = A} m ≡ some (none, (malloc m).1)
  unfolding new_responder_map
  responders_failed got = table_failed m got

pub taken :
    (m : Memory)
    → (malloc m).0 ≡ true
    → ((malloc m).1.allocs ≡ m.allocs + 1) × ((malloc m).1.frees ≡ m.frees)
unfolding malloc
taken m got = ground (arith, got)

pub refused :
    (m : Memory)
    → (malloc m).0 ≡ false
    → ((malloc m).1.allocs ≡ m.allocs) × ((malloc m).1.frees ≡ m.frees)
unfolding malloc
refused m got = ground (arith, got)
