-- ===== src/Network/Reads.antt =====
-- How many messages NetworkManager reads from a client: the handlers of its reads.
use adq.Common.{
  ℕ, ◌+◌, ◌≤◌, List, [], ◌∷◌, ◌++◌, Bool, true, false, ◌&&◌, ◌==◌, Option, none, some, ℤ, ◌==ℤ◌,
  ==ℤ_iff, if◌then◌else◌, ok, >>=-eq-ok, Bool-cases, Option-cases, inl, inr, ◌≡◌, refl, arith,
}
use adq.Serialization.Bytes.{read_number}
use adq.Serialization.Bodies.{Library}
use adq.Network.Frames.{receive_message}
use adq.Network.Connections.{
  Endpoint, Read, size_read, body_read, Transfer, transferred, disconnected, failed, Connections,
  no_connections, find_id, has_socket, take_read, Event, accepted, size_arrived, body_arrived,
  written, sending, start_read, post_read, find_socket, socket_of, accept_client, handle_accept,
  handle_size_read, handle_body_read, handle_write_complete, is_listed, initialize_socket, complete,
  run_event, run_events,
}

-- One where two IDs are the same.
abbrev same : ℤ → ℤ → ℕ
same i id = if i ==ℤ id then 1 else 0

-- The reads that are posted for a client.
unfoldable pub pending : ℤ → List (ℤ × Read) → ℕ
pending id [] = 0
pending id ((i, read) ∷ reads) = same i id + pending id reads

abbrev accepted_as : ℤ → Option ℤ → ℕ
accepted_as id none = 0
accepted_as id (some i) = same i id

-- How many connections of a client an event accepts, and how many messages it reads from it.
abbrev pub accepts : List (Endpoint × ℤ) → ℤ → Event → ℕ
accepts ip_to_id_map id (accepted ip socket) = accepted_as id (find_id ip_to_id_map ip)
accepts ip_to_id_map id _ = 0

abbrev pub bodies : ℤ → Event → ℕ
bodies id (body_arrived i k t) = same i id
bodies id _ = 0

abbrev pub all_accepts : List (Endpoint × ℤ) → ℤ → List Event → ℕ
all_accepts ip_to_id_map id [] = 0
all_accepts ip_to_id_map id (event ∷ events) =
    accepts ip_to_id_map id event + all_accepts ip_to_id_map id events

abbrev pub all_bodies : ℤ → List Event → ℕ
all_bodies id [] = 0
all_bodies id (event ∷ events) = bodies id event + all_bodies id events

pending-append :
    (id i : ℤ) (read : Read) (reads : List (ℤ × Read))
    → pending id (reads ++ (i, read) ∷ []) ≡ pending id reads + same i id
unfolding pending
pending-append id i read [] = omega arith
pending-append id i read ((j, r) ∷ reads) = omega (arith, pending-append id i read reads)

and_left : (a b : Bool) → (a && b) ≡ true → a ≡ true
and_left true b e = refl
and_left false b e = cc

pending-take_read :
    (id i : ℤ) (k : ℕ) (reads : List (ℤ × Read)) (read : Read) (rest : List (ℤ × Read))
    → take_read i k reads ≡ some (read, rest)
    → pending id reads ≡ same i id + pending id rest
unfolding pending take_read
pending-take_read id i k [] read rest e = cc
pending-take_read id i k ((j, r) ∷ reads) read rest e =
    elim (Bool-cases (j ==ℤ i && socket_of r == k)) [
      | inl eq ↦
          let first : ◌≡◌ {A = Option (Read × List (ℤ × Read))} (some (r, reads))
              (some (read, rest)) =
            rw eq at e in
          let others : reads ≡ rest = cc in
          let found : j ≡ i = (==ℤ_iff j i).0 (and_left (j ==ℤ i) (socket_of r == k) eq) in
          rw (others, found) refl
      | inr other ↦ elim (Option-cases (take_read i k reads)) [
        | inl gone ↦ absurd (cc (rw (other, gone) at e))
        | inr ((read', rest'), there) ↦
            let later : ◌≡◌ {A = Option (Read × List (ℤ × Read))} (some (read', (j, r) ∷ rest'))
                (some (read, rest)) =
              rw (other, there) at e in
            let others : (j, r) ∷ rest' ≡ rest = cc in
            rw (← others) (omega (arith, pending-take_read id i k reads read' rest' there))
      ]
    ]

module _ {R : Type 0} (lib : Library R) (id_to_ip_map : List ℤ) (ip_to_id_map : List (Endpoint × ℤ))
    (id : ℤ) where
  -- The reads that are posted for the client of the section.
  abbrev posted : Connections R → ℕ
  posted s = pending id s.reads

  start_read-posted :
      (i : ℤ) (read : ℕ → Read) (s t : Connections R)
      → start_read i read s ≡ ok t
      → posted t ≡ posted s + same i id
  unfolding start_read post_read
  start_read-posted i read s t e = elim (Option-cases (find_socket i s.sockets_by_id)) [
    | inr (socket, there) ↦
        let grown : s.reads ++ (i, read socket) ∷ [] ≡ t.reads = cc (rw there at e) in
        rw (← grown) (pending-append id i (read socket) s.reads)
    | inl gone ↦ absurd (cc (rw gone at e))
  ]

  -- Accepting a connection of a client posts a read for it.
  accept_client-posted :
      (found : Option ℤ) (socket : ℕ) (s t : Connections R)
      → accept_client found socket s ≡ ok t
      → posted t ≡ posted s + accepted_as id found
  unfolding accept_client
  accept_client-posted none socket s t e = cc
  accept_client-posted (some i) socket s t e = start_read-posted i size_read _ t e

  handle_size_read-posted :
      (i : ℤ) (transfer : Transfer) (s t : Connections R)
      → handle_size_read i transfer s ≡ ok t
      → posted t ≤ posted s + same i id
  unfolding handle_size_read
  handle_size_read-posted i (transferred bytes) s t e =
      let ((size, rest), read, started) =
        >>=-eq-ok (read_number 8 bytes) (λ v. start_read i (λ socket. body_read socket v.0) s) e in
      omega (arith, start_read-posted i (λ socket. body_read socket size) s t started)
  handle_size_read-posted i disconnected s t e =
      let unchanged : s ≡ t = cc in rw (← unchanged) (omega arith)
  handle_size_read-posted i failed s t e =
      let unchanged : s ≡ t = cc in rw (← unchanged) (omega arith)

  handle_body_read-posted :
      (i : ℤ) (transfer : Transfer) (s t : Connections R)
      → handle_body_read lib i transfer s ≡ ok t
      → posted t ≡ posted s
  unfolding handle_body_read
  handle_body_read-posted i (transferred bytes) s t e =
      let (messages, received, handed) =
        >>=-eq-ok (receive_message lib bytes) (λ ms. ok (record s { handed = s.handed ++ ms })) e in
      let unchanged : s.reads ≡ t.reads = cc handed in rw unchanged
  handle_body_read-posted i disconnected s t e =
      let unchanged : s.reads ≡ t.reads = cc e in rw unchanged
  handle_body_read-posted i failed s t e = let unchanged : s.reads ≡ t.reads = cc e in rw unchanged

  handle_write_complete-posted :
      (i : ℤ) (transfer : Transfer) (s : Connections R)
      → posted (handle_write_complete i transfer s) ≡ posted s
  unfolding handle_write_complete
  handle_write_complete-posted i (transferred bytes) s = refl
  handle_write_complete-posted i disconnected s = refl
  handle_write_complete-posted i failed s = refl

  initialize_socket-posted :
      (i : ℤ) (socket : ℕ) (s t : Connections R)
      → initialize_socket id_to_ip_map i socket s ≡ ok t
      → posted t ≡ posted s
  unfolding initialize_socket
  initialize_socket-posted i socket s t e = elim (Bool-cases (has_socket i s.sockets_by_id)) [
    | inl there ↦ let unchanged : s.reads ≡ t.reads = cc (rw there at e) in rw unchanged
    | inr gone ↦ elim (Bool-cases (is_listed i id_to_ip_map)) [
      | inl listed ↦ let unchanged : s.reads ≡ t.reads = cc (rw (gone, listed) at e) in rw unchanged
      | inr unlisted ↦ absurd (cc (rw (gone, unlisted) at e))
    ]
  ]

  abbrev read_body : Bool → ℤ → ℕ
  read_body true i = same i id
  read_body false i = 0

  complete-posted :
      (is_body : Bool) (i : ℤ) (k : ℕ) (transfer : Transfer)
      (found : Option (Read × List (ℤ × Read))) (s t : Connections R)
      → take_read i k s.reads ≡ found
      → complete lib is_body i transfer found s ≡ ok t
      → read_body is_body i + posted t ≤ posted s
  unfolding complete
  complete-posted is_body i k transfer none s t taken e = cc
  complete-posted true i k transfer (some (body_read j n, rest)) s t taken e = omega (
    arith,
    pending-take_read id i k s.reads (body_read j n) rest taken,
    handle_body_read-posted i transfer (record s { reads = rest }) t e,
  )
  complete-posted false i k transfer (some (size_read j, rest)) s t taken e = omega (
    arith,
    pending-take_read id i k s.reads (size_read j) rest taken,
    handle_size_read-posted i transfer (record s { reads = rest }) t e,
  )
  complete-posted true i k transfer (some (size_read j, rest)) s t taken e = cc
  complete-posted false i k transfer (some (body_read j n, rest)) s t taken e = cc

  -- What an event reads from a client and leaves posted for it was posted or is accepted.
  run_event-posted :
      (event : Event) (s t : Connections R)
      → run_event lib id_to_ip_map ip_to_id_map event s ≡ ok t
      → bodies id event + posted t ≤ accepts ip_to_id_map id event + posted s
  unfolding run_event handle_accept
  run_event-posted (accepted ip socket) s t e =
      omega (arith, accept_client-posted (find_id ip_to_id_map ip) socket s t e)
  run_event-posted (size_arrived i k transfer) s t e =
      omega (arith, complete-posted false i k transfer (take_read i k s.reads) s t refl e)
  run_event-posted (body_arrived i k transfer) s t e =
      omega (arith, complete-posted true i k transfer (take_read i k s.reads) s t refl e)
  run_event-posted (written i transfer) s t e =
      let after : handle_write_complete i transfer s ≡ t = cc e in
      rw (← after) (omega (arith, handle_write_complete-posted i transfer s))
  run_event-posted (sending i socket) s t e = omega (arith, initialize_socket-posted i socket s t e)

  run_events-posted :
      (events : List Event) (s t : Connections R)
      → run_events lib id_to_ip_map ip_to_id_map events s ≡ ok t
      → all_bodies id events + posted t ≤ all_accepts ip_to_id_map id events + posted s
  unfolding run_events
  run_events-posted [] s t e = let unchanged : s ≡ t = cc in rw (← unchanged) (omega arith)
  run_events-posted (event ∷ events) s t e =
      let (u, first, then_on) =
        >>=-eq-ok (run_event lib id_to_ip_map ip_to_id_map event s)
          (λ u. run_events lib id_to_ip_map ip_to_id_map events u) e in
      omega (arith, run_event-posted event s u first, run_events-posted events u t then_on)

  -- In any course of events from the start, no more message bodies are read for a client than
  -- connections are accepted from it.
  pub bodies_within_accepts :
      (events : List Event) (t : Connections R)
      → run_events lib id_to_ip_map ip_to_id_map events no_connections ≡ ok t
      → all_bodies id events ≤ all_accepts ip_to_id_map id events
  unfolding pending
  bodies_within_accepts events t e = omega (arith, run_events-posted events no_connections t e)
