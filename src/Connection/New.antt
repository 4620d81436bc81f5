-- ===== src/Connection/New.antt =====
-- amp_new_proto (amp.c) on each of its paths.
use libamp.Common.{◌+◌, ◌≡◌, inl, inr, refl, arith, true, false, none, some, Bool-cases}
use libamp.CString.Laws.{responder_key}
use libamp.Memory.{Memory, malloc, release}
use libamp.Box.{empty_box, amp_free_box}
use libamp.Memory.Plenty.{IsPlenty, IsPlenty-after}
use libamp.Box.Plenty.{malloc_got}
use libamp.Messages.Steady.{malloc_steady}
use libamp.Box.Valid.{empty_box-IsValid}
use libamp.Table.{empty_table}
use libamp.Table.Laws.{empty_table-IsTable}
use libamp.Dispatch.{callback_key, free_callback_map}
use libamp.Connection.{amp_new_proto, amp_free_proto}
use libamp.Connection.Life.{
  malloc-Fails, Fails-later, SameInUse, fresh_proto, fresh_proto-IsNew, Outcome, free_proto_memory,
  empty_box_freed, callbacks_freed, released, box_made, box_failed, callbacks_made,
  callbacks_failed, responders_made, responders_failed, taken, refused,
}

module _ (F A : Type 0) {S : Type 0} where
  fresh_proto_freed :
      (app : S) (m : Memory)
      → (amp_free_proto (fresh_proto {F = F} {A = A} app) m).frees ≡ m.frees + 4
  unfolding empty_box empty_table
  fresh_proto_freed app m =
      let freed =
        free_proto_memory (fresh_proto {F = F} {A = A} app) empty_box m refl empty_box-IsValid
          (empty_table-IsTable callback_key 127 (omega arith))
          (empty_table-IsTable responder_key 127 (omega arith)) in
      ground (arith, freed)

  module _ (app : S) (m : Memory) where
    -- The memory behind each of the four allocations.
    abbrev m1 : Memory
    m1 = (malloc m).1

    abbrev m2 : Memory
    m2 = (malloc m1).1

    abbrev m3 : Memory
    m3 = (malloc m2).1

    abbrev m4 : Memory
    m4 = (malloc m3).1

    no_proto : (malloc m).0 ≡ false → amp_new_proto {F = F} {A = A} app m ≡ some (none, m1)
    unfolding amp_new_proto
    no_proto e = ground (arith, e)

    no_box :
        (malloc m).0 ≡ true
        → (malloc m1).0 ≡ false
        → amp_new_proto {F = F} {A = A} app m ≡ some (none, release 1 m2)
    unfolding amp_new_proto
    no_box e e1 = ground (arith, e, box_failed m1 e1)

    module _ (e : (malloc m).0 ≡ true) (e1 : (malloc m1).0 ≡ true) where
      no_callbacks :
          (malloc m2).0 ≡ false
          → amp_new_proto {F = F} {A = A} app m
            ≡ some (none, amp_free_box (some empty_box) (release 1 m3))
      unfolding amp_new_proto
      no_callbacks e2 = ground (arith, e, box_made m1 e1, callbacks_failed F A m2 e2)

      module _ (e2 : (malloc m2).0 ≡ true) where
        no_responders :
            (malloc m3).0 ≡ false
            → amp_new_proto {F = F} {A = A} app m
              ≡ some (
                none,
                free_callback_map {F = F} {A = A}
                    (empty_table 127)
                    (amp_free_box (some empty_box) (release 1 m4)),
              )
        unfolding amp_new_proto
        no_responders e3 =
            ground (arith, e, box_made m1 e1, callbacks_made F A m2 e2, responders_failed F A m3 e3)

        proto_made :
            (malloc m3).0 ≡ true
            → amp_new_proto {F = F} {A = A} app m ≡ some (some (fresh_proto app), m4)
        unfolding amp_new_proto
        proto_made e3 =
            ground (arith, e, box_made m1 e1, callbacks_made F A m2 e2, responders_made F A m3 e3)

    -- amp_new_proto always returns: it never reads behind an array. Either it returns a protocol
    -- object at the start of a connection, with an empty box, no request that waits, no responder and
    -- the given data, for which four blocks were allocated and none freed, and which amp_free_proto
    -- takes back in four blocks; or one of the four allocations failed, it returns NULL, and as many blocks are in
    -- use as before it.
    pub new_proto-Outcome : Outcome {F = F} {A = A} app m (amp_new_proto app m)
    new_proto-Outcome = elim (Bool-cases (malloc m).0) [
      | inr e ↦ inr (m1, no_proto e, omega (arith, refused m e), malloc-Fails m 3 e)
      | inl e ↦ elim (Bool-cases (malloc m1).0) [
        | inr e1 ↦ inr (
          release 1 m2,
          no_box e e1,
          omega (arith, taken m e, refused m1 e1, released m2),
          Fails-later m 3 (malloc-Fails m1 2 e1),
        )
        | inl e1 ↦ elim (Bool-cases (malloc m2).0) [
          | inr e2 ↦
              let m' = release 1 m3 in
              let same : SameInUse m (amp_free_box (some empty_box) m') =
                omega
                  (arith, taken m e, taken m1 e1, refused m2 e2, released m3, empty_box_freed m') in
              inr (
                amp_free_box (some empty_box) m',
                no_callbacks e e1 e2,
                same,
                Fails-later m 3 (Fails-later m1 2 (malloc-Fails m2 1 e2)),
              )
          | inl e2 ↦ elim (Bool-cases (malloc m3).0) [
            | inr e3 ↦
                let m' = release 1 m4 in
                let m'' = amp_free_box (some empty_box) m' in
                let same : SameInUse m (free_callback_map {F = F} {A = A} (empty_table 127) m'') =
                  omega (
                    arith,
                    taken m e,
                    taken m1 e1,
                    taken m2 e2,
                    refused m3 e3,
                    released m4,
                    empty_box_freed m',
                    callbacks_freed F A m'',
                  ) in
                inr (
                  _,
                  no_responders e e1 e2 e3,
                  same,
                  Fails-later m 3 (Fails-later m1 2 (Fails-later m2 1 (malloc-Fails m3 0 e3))),
                )
            | inl e3 ↦ inl (
              fresh_proto app,
              m4,
              proto_made e e1 e2 e3,
              fresh_proto-IsNew app,
              omega (arith, taken m e, taken m1 e1, taken m2 e2, taken m3 e3),
              omega (arith, taken m e, taken m1 e1, taken m2 e2, taken m3 e3),
              fresh_proto_freed app m4,
            )
          ]
        ]
      ]
    ]

    -- With memory for every block the object is made.
    pub new_proto_made :
        IsPlenty m
        → (m' : Memory) × IsPlenty m'
          × (amp_new_proto {F = F} {A = A} app m ≡ some (some (fresh_proto app), m'))
    new_proto_made plenty =
        let p1 = IsPlenty-after m m1 (malloc_steady m) plenty in
        let p2 = IsPlenty-after m1 m2 (malloc_steady m1) p1 in
        let p3 = IsPlenty-after m2 m3 (malloc_steady m2) p2 in
        (
          m4,
          IsPlenty-after m3 m4 (malloc_steady m3) p3,
          proto_made (malloc_got m plenty) (malloc_got m1 p1) (malloc_got m2 p2) (malloc_got m3 p3),
        )
