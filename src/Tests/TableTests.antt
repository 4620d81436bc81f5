-- ===== src/Tests/TableTests.antt =====
-- The theorems on tables and on the dispatch maps, at sample keys.
use libamp.Common.{
  ℕ, ◌≡◌, refl, arith, if◌then◌else◌, ◌==◌, ◌&&◌, ◌||◌, [], ◌∷◌, some, none, is_some,
}
use libamp.CString.{Bytes, codes, str_eq}
use libamp.CString.Laws.{responder_key}
use libamp.Table.{Table, empty_table, table_get, table_put}
use libamp.Table.Laws.{IsTable, empty_table-IsTable}
use libamp.Table.Refine.{put, remove, calls, calls_map, calls_refine}
use libamp.Dispatch.{
  Callback, Responder, callback_key, put_callback, pop_callback, put_responder, get_responder,
}
use libamp.Dispatch.Laws.{pop-put_callback, get_responder-put}
use libamp.Tests.Samples.{plenty, box_program}

-- The first request's callback; its handler and argument are numbers here.
abbrev sample_callback : Callback ℕ ℕ
sample_callback = record { ask_key = 0; func = 7; arg = 8 }

abbrev sample_responder : Responder ℕ ℕ
sample_responder = record { command = []; func = 7; arg = 8 }

abbrev callbacks : Table ℕ (Callback ℕ ℕ)
callbacks = empty_table 127

abbrev responders : Table Bytes (Responder ℕ ℕ)
responders = empty_table 127

callbacks-IsTable : IsTable callback_key callbacks
callbacks-IsTable = empty_table-IsTable callback_key 127 (omega arith)

responders-IsTable : IsTable responder_key responders
responders-IsTable = empty_table-IsTable responder_key 127 (omega arith)

calls_refine_example :
    IsTable callback_key
      (calls callback_key (put 1 sample_callback ∷ remove 1 ∷ []) callbacks plenty).0
    × ((j : ℕ)
        → table_get callback_key
            (calls callback_key (put 1 sample_callback ∷ remove 1 ∷ []) callbacks plenty).0
            j
          ≡ calls_map callback_key
              (put 1 sample_callback ∷ remove 1 ∷ [])
              (table_get callback_key callbacks)
              j)
calls_refine_example =
    calls_refine callback_key (put 1 sample_callback ∷ remove 1 ∷ []) callbacks plenty
      (table_get callback_key callbacks) callbacks-IsTable (λ n. refl) (λ j. refl)

table_program : Unit {0}
unfolding box_program empty_table table_put put_callback
table_program = tt

pop-put_callback_example :
    let put = put_callback callbacks 1 sample_callback plenty in
    let pop = pop_callback put.1 1 put.2 in
    (pop.0 ≡ some (record sample_callback { ask_key = 1 }))
    × ((j : ℕ)
        → (pop_callback pop.1 j pop.2).0
          ≡ (if j == 1 then none else (pop_callback callbacks j plenty).0))
pop-put_callback_example =
    pop-put_callback callbacks 1 sample_callback plenty callbacks-IsTable
      (unfold table_program in refl)

get_responder-put_example :
    get_responder (put_responder responders (codes "Sum") sample_responder plenty).0 (codes "Sum")
    ≡ (if str_eq (codes "Sum") (codes "Sum")
          && (is_some (get_responder responders (codes "Sum")) || plenty.succeeds plenty.calls)
        then some (record sample_responder { command = codes "Sum" })
        else get_responder responders (codes "Sum"))
get_responder-put_example =
    get_responder-put responders (codes "Sum") sample_responder plenty responders-IsTable
      (codes "Sum")
