-- ===== src/Network/Connections.antt =====
-- The sockets of a NetworkManager and the handlers of its asynchronous reads and writes. The sockets
-- themselves, and asio's event loop, are outside: an event is a handler that the loop runs.
use adq.Common.{
  ℕ, List, [], ◌∷◌, ◌++◌, Bool, true, false, Option, none, some, ℤ, ◌==ℤ◌, ◌==◌, ◌&&◌,
  if◌then◌else◌, Result, ok, err, undefined, out_of_range, ◌>>=◌,
}
use adq.Serialization.Bytes.{read_number}
use adq.Serialization.Bodies.{Library}
use adq.Serialization.Envelopes.{Message}
use adq.Network.Frames.{receive_message}

-- asio::ip::tcp::endpoint: an address and a port.
abbrev pub Endpoint : Type 0
Endpoint = ℕ × ℕ

-- The reads that start_size_read and start_body_read post on a socket; the latter asks for a number
-- of bytes.
pub data Read : Type 0 where
  size_read : ℕ → Read
  body_read : ℕ → ℕ → Read

abbrev pub socket_of : Read → ℕ
socket_of (size_read socket) = socket
socket_of (body_read socket size) = socket

-- How an asynchronous operation ends: with the bytes that were asked for, with the other side gone
-- (eof or connection_aborted), or with another error.
pub data Transfer : Type 0 where
  transferred : List ℕ → Transfer
  disconnected : Transfer
  failed : Transfer

-- `reads` are the reads that have been posted and not completed, each with the ID that its handler
-- is for, `handed` what the message handler
-- was given, in order. A socket is known by a number.
pub record Connections (R : Type 0) : Type 0 where
  pub sockets_by_id : List (ℤ × ℕ)
  pub reads : List (ℤ × Read)
  pub handed : List (Message R)

abbrev pub no_connections : {R : Type 0} → Connections R
no_connections = record { sockets_by_id = []; reads = []; handed = [] }

unfoldable pub find_id : List (Endpoint × ℤ) → Endpoint → Option ℤ
find_id [] ip = none
find_id ((e, id) ∷ ip_to_id_map) ip =
    if e.0 == ip.0 && e.1 == ip.1 then some id else find_id ip_to_id_map ip

unfoldable pub has_socket : ℤ → List (ℤ × ℕ) → Bool
has_socket id [] = false
has_socket id ((i, socket) ∷ sockets) = if i ==ℤ id then true else has_socket id sockets

unfoldable pub find_socket : ℤ → List (ℤ × ℕ) → Option ℕ
find_socket id [] = none
find_socket id ((i, socket) ∷ sockets) = if i ==ℤ id then some socket else find_socket id sockets

unfoldable pub erase_socket : ℤ → List (ℤ × ℕ) → List (ℤ × ℕ)
erase_socket id [] = []
erase_socket id ((i, socket) ∷ sockets) =
    if i ==ℤ id then sockets else (i, socket) ∷ erase_socket id sockets

-- emplace: a socket for an ID that has one already is closed.
unfoldable pub emplace_socket : ℤ → ℕ → List (ℤ × ℕ) → List (ℤ × ℕ)
emplace_socket id socket sockets =
    if has_socket id sockets then sockets else sockets ++ (id, socket) ∷ []

-- The oldest read that is posted for an ID on a socket, and the others.
unfoldable pub take_read : ℤ → ℕ → List (ℤ × Read) → Option (Read × List (ℤ × Read))
take_read id socket [] = none
take_read id socket ((i, read) ∷ reads) =
    let rest = take_read id socket reads in
    if i ==ℤ id && socket_of read == socket
    then some (read, reads)
    else elim rest [ none ↦ none | some found ↦ some (found.0, (i, read) ∷ found.1) ]

-- id_to_ip_map.at of a recipient that is not listed throws.
unfoldable pub is_listed : ℤ → List ℤ → Bool
is_listed id [] = false
is_listed id (i ∷ ids) = if i ==ℤ id then true else is_listed id ids

-- What asio runs: the handler of an accepted connection, of a read on a socket or of a write, or a `send` that
-- wants a socket for its recipient.
pub data Event : Type 0 where
  accepted : Endpoint → ℕ → Event
  size_arrived : ℤ → ℕ → Transfer → Event
  body_arrived : ℤ → ℕ → Transfer → Event
  written : ℤ → Transfer → Event
  sending : ℤ → ℕ → Event

module _ {R : Type 0} where
  unfoldable pub post_read : ℤ → (ℕ → Read) → Option ℕ → Connections R → Result (Connections R)
  post_read client_id read none s = err out_of_range
  post_read client_id read (some socket) s =
      ok (record s { reads = s.reads ++ (client_id, read socket) ∷ [] })

  -- The read is posted on the socket that the table has for the client.
  unfoldable pub start_read : ℤ → (ℕ → Read) → Connections R → Result (Connections R)
  unfolding post_read find_socket
  start_read client_id read s = post_read client_id read (find_socket client_id s.sockets_by_id) s

  unfoldable pub accept_client : Option ℤ → ℕ → Connections R → Result (Connections R)
  accept_client none socket s = err out_of_range
  accept_client (some client_id) socket s =
      start_read client_id size_read
        (record s { sockets_by_id = emplace_socket client_id socket s.sockets_by_id })

  unfoldable pub handle_accept :
      List (Endpoint × ℤ) → Endpoint → ℕ → Connections R → Result (Connections R)
  handle_accept ip_to_id_map client_ip new_socket s =
      accept_client (find_id ip_to_id_map client_ip) new_socket s

  unfoldable pub handle_size_read : ℤ → Transfer → Connections R → Result (Connections R)
  handle_size_read client_id (transferred bytes) s = do
    (message_size, rest) ← read_number 8 bytes
    start_read client_id (λ socket. body_read socket message_size) s
  handle_size_read client_id disconnected s = ok s
  handle_size_read client_id failed s = ok s

  unfoldable pub handle_write_complete : ℤ → Transfer → Connections R → Connections R
  handle_write_complete recipient_id (transferred bytes) s = s
  handle_write_complete recipient_id disconnected s = record s {
    sockets_by_id = erase_socket recipient_id s.sockets_by_id;
  }
  handle_write_complete recipient_id failed s = record s {
    sockets_by_id = erase_socket recipient_id s.sockets_by_id;
  }

  -- `id_to_ip_map` stands for its keys.
  unfoldable pub initialize_socket : List ℤ → ℤ → ℕ → Connections R → Result (Connections R)
  initialize_socket id_to_ip_map recipient_id socket s =
      if has_socket recipient_id s.sockets_by_id
      then ok s
      else (if is_listed recipient_id id_to_ip_map
          then ok (record s { sockets_by_id = s.sockets_by_id ++ (recipient_id, socket) ∷ [] })
          else err out_of_range)

module _ {R : Type 0} (lib : Library R) where
  unfoldable pub handle_body_read : ℤ → Transfer → Connections R → Result (Connections R)
  handle_body_read client_id (transferred bytes) s = do
    messages ← receive_message lib bytes
    ok (record s { handed = s.handed ++ messages })
  handle_body_read client_id disconnected s =
      ok (record s { sockets_by_id = erase_socket client_id s.sockets_by_id })
  handle_body_read client_id failed s =
      ok (record s { sockets_by_id = erase_socket client_id s.sockets_by_id })

  -- The handler of a read runs when the read was posted.
  unfoldable pub complete :
      Bool → ℤ → Transfer → Option (Read × List (ℤ × Read)) → Connections R → Result (Connections R)
  complete is_body id t none s = err undefined
  complete true id t (some (body_read k n, rest)) s =
      handle_body_read id t (record s { reads = rest })
  complete false id t (some (size_read k, rest)) s =
      handle_size_read id t (record s { reads = rest })
  complete is_body id t (some (read, rest)) s = err undefined

module _ {R : Type 0} (lib : Library R) (id_to_ip_map : List ℤ)
    (ip_to_id_map : List (Endpoint × ℤ)) where
  unfoldable pub run_event : Event → Connections R → Result (Connections R)
  run_event (accepted ip socket) s = handle_accept ip_to_id_map ip socket s
  run_event (size_arrived id k t) s = complete lib false id t (take_read id k s.reads) s
  run_event (body_arrived id k t) s = complete lib true id t (take_read id k s.reads) s
  run_event (written id t) s = ok (handle_write_complete id t s)
  run_event (sending id socket) s = initialize_socket id_to_ip_map id socket s

  unfoldable pub run_events : List Event → Connections R → Result (Connections R)
  run_events [] s = ok s
  run_events (event ∷ events) s = do t ← run_event event s; run_events events t
