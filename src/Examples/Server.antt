-- ===== src/Examples/Server.antt =====
-- The example server (examples/asyncserver.c): sum_responder, the write handler, the reading callback
-- and the callback for a new connection. libevent's functions and fprintf are parameters; `S` is the
-- type of the data that they reach. The debug texts are not printed, since common.h sets DEBUG_TEST
-- to 0.
pub mod Sums
pub mod Steady
pub mod Listening
use libamp.Common.{
  ℕ, Bool, true, false, [], ◌∷◌, ◌++◌, Option, none, some, take, ◌==◌, ◌&&◌, if◌then◌else◌,
}
use libamp.Common.Int.{ℤ, pos, negsuc, ◌+ℤ◌, leb_ℤ, eqb_ℤ}
use libamp.CString.{Bytes, codes}
use libamp.Memory.{Memory, release}
use libamp.Errors.{ok, err}
use libamp.ErrorText.{amp_strerror}
use libamp.Box.{Box, amp_new_box, amp_free_box}
use libamp.Types.{amp_get_long_long, amp_put_long_long}
use libamp.Types.Decimal.{show_ℤ}
use libamp.Messages.{Request, amp_free_request}
use libamp.Calls.{Peer, WriteHandler, Output, amp_set_write_handler}
use libamp.Handlers.{Application, amp_respond, amp_add_responder}
use libamp.Connection.{Proto, Consumed, amp_new_proto, amp_consume_bytes}

abbrev pub newline : Bytes
newline = 10 ∷ []

abbrev pub sum_command : Bytes
sum_command = codes "Sum"

-- The sum of two `long long`s. Without one the addition overflows, which is undefined.
unfoldable pub add_long_long : ℤ → ℤ → Option ℤ
add_long_long a b =
    if leb_ℤ (negsuc 9223372036854775807) (a +ℤ b) && leb_ℤ (a +ℤ b) (pos 9223372036854775807)
    then some (a +ℤ b)
    else none

module _ {F A S : Type 0} (fprintf : Bytes → S → S) where
  -- A text for the standard error stream.
  abbrev pub complain : Bytes → Peer F A S → Peer F A S
  complain text peer = record peer { app = fprintf (text ++ newline) peer.app }

  -- What is reported of the answer that amp_respond gave.
  unfoldable pub answered : ℤ → Peer F A S → Peer F A S
  answered ret peer =
      if eqb_ℤ ret (pos 0)
      then peer
      else complain
          (codes "Couldn't send answer: " ++ (show_ℤ ret ++ (codes ": " ++ amp_strerror ret))) peer

  -- The total is put in the answer, which is sent.
  unfoldable pub send_total :
      Output F A S
      → Peer F A S
      → Request
      → Box
      → ℤ
      → Memory
      → Option (Option Box × Peer F A S × Memory)
  send_total out peer req answer total m =
      let (e, answer1, m1) = amp_put_long_long answer (codes "total") total m in
      if e == 0
      then elim (amp_respond out peer req answer1 m1) [
        | none ↦ none
        | some (ret, answer2, peer2, m2) ↦ some (some answer2, answered ret peer2, m2)
      ]
      else some (
        some answer1,
        complain (codes "Couldn't set `total' key: " ++ amp_strerror (pos e)) peer,
        m1,
      )

  -- sum_responder down to its label: the answer, if one was made, and the rest. `none` is undefined
  -- behaviour.
  unfoldable pub sum_answer :
      Output F A S → Peer F A S → Request → Box → Memory → Option (Option Box × Peer F A S × Memory)
  sum_answer out peer req args m = elim (amp_get_long_long args (codes "a")) [
    | err ret ↦
        some (none, complain (codes "Couldn't get `a' key: " ++ amp_strerror (pos ret)) peer, m)
    | ok a ↦ elim (amp_get_long_long args (codes "b")) [
      | err ret ↦
          some (none, complain (codes "Couldn't get `b' key: " ++ amp_strerror (pos ret)) peer, m)
      | ok b ↦
          let (new, m1) = amp_new_box m in
          elim new [
            | none ↦ some (none, complain (codes "Couldn't allocate box.") peer, m1)
            | some answer ↦ elim (add_long_long a b) [
              | none ↦ none
              | some total ↦ send_total out peer req answer total m1
            ]
          ]
    ]
  ]

  unfoldable pub sum_responder :
      Output F A S → Peer F A S → Request → Memory → Option (Peer F A S × Memory)
  unfolding amp_free_request amp_free_box
  sum_responder out peer req m = elim req.args [
    | none ↦ none
    | some args ↦ elim (sum_answer out peer req args m) [
      | none ↦ none
      | some (answer, peer1, m1) ↦ some (peer1, amp_free_box answer (amp_free_request req m1))
    ]
  ]

-- libevent's functions, on a buffer for events of type `A`.
pub record Libevent (A S : Type 0) : Type 0 where
  pub bufferevent_socket_new : S → Option A × S
  pub bufferevent_write : A → Bytes → S → S
  -- At most so many bytes of the input.
  pub bufferevent_read : A → ℕ → S → Bytes × S
  -- bufferevent_setcb and bufferevent_enable.
  pub monitor : A → S → S
  pub event_base_loopbreak : S → S

-- What listener_cb ends with.
pub data Accepted (F A S : Type 0) : Type 0 where
  refused : S → Accepted F A S
  exited : S → Accepted F A S
  accepted : Proto F A S → Output F A S → Accepted F A S

module _ {F A S : Type 0} (event : Libevent A S) where
  -- do_write, with its argument first.
  unfoldable pub server_write : A → WriteHandler F A S
  unfolding release
  server_write bev buf buf_size p m =
      (pos 0, record p { app = event.bufferevent_write bev (take buf_size buf) p.app }, release 1 m)

module _ {F A S : Type 0} (event : Libevent A S) (fprintf : Bytes → S → S) where
  unfoldable pub conn_readcb :
      Application F A S → A → Proto F A S → Memory → Option (Proto F A S × Memory)
  conn_readcb app bev proto m =
      let (buf, app1) = event.bufferevent_read bev 256 proto.peer.app in
      let proto1 : Proto F A S = record proto { peer = record (proto.peer) { app = app1 } } in
      elim (amp_consume_bytes app proto1 m buf) [
        | none ↦ none
        | some r ↦
            if r.code == 0
            then some (r.proto, r.memory)
            else some (
              record (r.proto) {
                peer =
                    complain fprintf
                      (codes "ERROR in amp_consume_bytes(): " ++ amp_strerror (pos r.code))
                      r.proto.peer;
              },
              r.memory,
            )
      ]

  -- A connection was accepted; `log` is the log handler, `sum` the pointer to sum_responder, and
  -- `garbage` what a fresh responder's block holds as its command.
  unfoldable pub listener_cb :
      Option (Bytes → S → S) → F → Bytes → S → Memory → Option (Accepted F A S × Memory)
  listener_cb log sum garbage app m =
      let (new, app1) = event.bufferevent_socket_new app in
      elim new [
        | none ↦ some (
          refused
              (event.event_base_loopbreak (fprintf (codes "Error constructing bufferevent!") app1)),
          m,
        )
        | some bev ↦ elim (amp_new_proto {F = F} {A = A} app1 m) [
          | none ↦ none
          | some (none, m1) ↦
              some (exited (fprintf (codes "Couldn't allocate AMP_Proto." ++ newline) app1), m1)
          | some (some proto, m1) ↦
              elim (amp_add_responder garbage proto.peer sum_command sum bev m1) [
                | none ↦ none
                | some (peer, m2) ↦ some (
                  accepted
                      (record proto { peer = record peer { app = event.monitor bev peer.app } })
                      (amp_set_write_handler (record { log = log; write = none })
                        (server_write event) bev),
                  m2,
                )
              ]
        ]
      ]
