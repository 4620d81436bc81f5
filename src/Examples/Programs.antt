-- ===== src/Examples/Programs.antt =====
-- Applications that behave as the example programs (examples/asyncserver.c and
-- examples/sumclient.c) where these are defined and do not exit. Elsewhere nothing is changed.
use libamp.Common.{ℕ, ◌≡◌, refl, ap, ◌∙◌, Option, none, some}
use libamp.CString.{Bytes}
use libamp.Memory.{Memory, release}
use libamp.Calls.{Peer, Output}
use libamp.Handlers.{Application}
use libamp.Packets.Steady.{IsSteady}
use libamp.Examples.Server.{Libevent, server_write, sum_responder}
use libamp.Examples.Server.Steady.{after_responder, sum_responder_steady}
use libamp.Examples.Sum.{Serves}
use libamp.Examples.Client.{SumState, System, Ran, returned, exited, client_write, resp_cb}
use libamp.Examples.Client.Steady.{after_run, resp_cb_steady}
use libamp.Examples.Session.{Runs}

-- What a responder leaves.
abbrev left_by :
    {F A S : Type 0} → Peer F A S → Memory → Option (Peer F A S × Memory) → Peer F A S × Memory
left_by peer m none = (peer, m)
left_by peer m (some (peer', m')) = (peer', m')

left_by-memory :
    {F A S : Type 0} (peer : Peer F A S) (m : Memory) (x : Option (Peer F A S × Memory))
    → (left_by peer m x).1 ≡ after_responder m x
left_by-memory peer m none = refl
left_by-memory peer m (some x) = refl

-- What a callback leaves.
abbrev left_running :
    {F A I : Type 0}
    → Peer F A (SumState I)
    → Memory
    → Option (Ran F A I)
    → Peer F A (SumState I) × Memory
left_running peer m none = (peer, m)
left_running peer m (some (returned peer' m')) = (peer', m')
left_running peer m (some (exited code peer')) = (peer', m)

module _ {F A S : Type 0} (event : Libevent A S) (fprintf : Bytes → S → S)
    (log : Option (Bytes → S → S)) (bev : A) where
  abbrev pub server_output : Output F A S
  server_output = record { log = log; write = some (server_write event bev) }

  abbrev pub server_program : Application F A S
  server_program = record {
    output = server_output;
    respond =
        λ f arg request peer m. left_by peer m (sum_responder fprintf server_output peer request m);
    call_back = λ f arg result peer m. (peer, m);
  }

  pub server_program-Serves : (sum : F) → Serves fprintf server_program sum
  server_program-Serves sum arg request peer m peer' m' h = ap (λ x. left_by peer m x) h

  pub server_program-IsSteady : IsSteady server_program
  unfolding server_write release
  server_program-IsSteady = record {
    write = (server_write event bev, refl, λ buf size peer m. refl);
    respond = λ f arg request peer m.
        ap (λ m. m.succeeds)
          (left_by-memory peer m (sum_responder fprintf server_output peer request m))
        ∙ sum_responder_steady fprintf (server_write event bev) server_output refl
            (λ buf size peer m. refl) peer request m;
    call_back = λ f arg result peer m. refl;
  }

left_running-memory :
    {F A I : Type 0} (peer : Peer F A (SumState I)) (m : Memory) (x : Option (Ran F A I))
    → (left_running peer m x).1 ≡ after_run m x
left_running-memory peer m none = refl
left_running-memory peer m (some (returned peer' m')) = refl
left_running-memory peer m (some (exited code peer')) = refl

module _ {F A I : Type 0} (sys : System I) (log : Option (Bytes → SumState I → SumState I))
    (garbage : Memory → ℕ) where
  abbrev pub client_output : Output F A (SumState I)
  client_output = record { log = log; write = some (client_write sys) }

  -- Every callback is resp_cb, with the pointer to it as its function.
  abbrev pub client_program : Application F A (SumState I)
  client_program = record {
    output = client_output;
    respond = λ f arg request peer m. (peer, m);
    call_back = λ f arg result peer m.
        left_running peer m (resp_cb sys client_output (garbage m) f arg result peer m);
  }

  pub client_program-Runs :
      {F' A' S : Type 0} (event : Libevent A' S) (fprintf : Bytes → S → S)
      (server : Application F' A' S) (sum : F') (bev : A') (resp : F) (arg : A)
      → Runs event fprintf sys server sum bev client_program garbage resp arg
  client_program-Runs event fprintf server sum bev resp arg result peer m peer' m' h =
      ap (λ x. left_running peer m x) h

  pub client_program-IsSteady : IsSteady client_program
  unfolding client_write
  client_program-IsSteady = record {
    write = (client_write sys, refl, λ buf size peer m. refl);
    respond = λ f arg request peer m. refl;
    call_back = λ f arg result peer m.
        ap (λ m. m.succeeds)
          (left_running-memory peer m (resp_cb sys client_output (garbage m) f arg result peer m))
        ∙ resp_cb_steady sys client_output refl (garbage m) f arg result peer m;
  }
