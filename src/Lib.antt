-- ===== src/Lib.antt =====
-- ADQ: aggregate queries over a network of meters without revealing single readings.
--
-- Paths are from the repository's root; `core`, `messaging` and `util` are folders of include/adq.
--
-- The program. A utility runs a QueryServer, and each meter a QueryClient with a ProtocolState. A
-- query starts when the server sends a QueryRequest to every meter. Meters ask the server for a
-- blind signature on their contribution, and send it to one proxy in each aggregation group by
-- onion-like overlay messages: these travel by gossip, where node i sends to node i + 2^t mod N in
-- round t, and along node-disjoint paths. Proxies settle by crusader agreement which contributions
-- all of them hold, a binary tree in each group sums the accepted ones up, and each tree's root
-- reports to the server, which takes the value that enough groups agree on.
--
-- The files and the code.
--   Common       Boolean tests, lists over native numbers, signed integers, results with errors,
--                ceil(log2 n).
--   Overlay      src/util/Overlay.cpp: Defs has its functions under their names (mod_pow,
--                gossip_target and gossip_predecessor without and with their memo table,
--                aggregation_group_for, aggregation_tree_parent, aggregation_tree_children), Proxies
--                has pick_proxies, Primes has get_valid_prime_modulus with the table of
--                util/PrimeModuli.hpp. The other children prove.
--   PathFinder   src/util/PathFinder.cpp: find_path, find_another, find_paths. A parent pointer is
--                the parent itself; the order in which an unordered_set is walked is the parameter
--                IterationOrder.
--   Messages     the data of messaging, with operator== of contributions (Equality) and of all
--                bodies (Bodies).
--   Crypto       the operations of core/CryptoLibrary.hpp as a record that other modules take as a
--                parameter, with rsa_encrypt and rsa_decrypt of an OverlayMessage. Openssl fills the
--                record, from operations on bytes and the wire format.
--   Agreement    core/CrusaderAgreementState.hpp and its _impl.hpp: CrusaderState with the handlers
--                of both phases, finish_phase_1 and finish_phase_2. A std::map is the list of its
--                entries by key. Uses Crypto and PathFinder as the code does.
--   Aggregation  core/TreeAggregationState.hpp and its _impl.hpp; the query's aggregate function is
--                a parameter. Group runs the operations of a whole group's meters in any order.
--   Timers       src/util/LinuxTimerManager.cpp: calls, the signal handler (expire) and the
--                callback thread are steps on one state, whose `armed` is the kernel's part. The
--                thread stops between its unlock and a callback, where a cancel can come in.
--   Server       core/QueryServer.hpp and its _impl.hpp: each operation gives the new state and the
--                actions it takes. Uses Timers as the code does; a round of its timer thread runs
--                without a stop here.
--   Protocol     core/ProtocolState.hpp and its _impl.hpp: start_query, the shuffle messages, pings,
--                send_overlay_message_batch and the aggregation phase. Its child Rounds has the end of
--                a round: end_overlay_round with common_end_overlay_round, handle_overlay_message,
--                handle_round_timeout, encrypted_multicast_to_proxies. Uses Crypto, PathFinder,
--                Agreement, Aggregation and Timers as the code does; whether a packet gets through
--                is a parameter.
--   Serialization  to_bytes, bytes_size and from_bytes of messaging/detail: Bytes has plain values and
--                the codecs of the serialization library, which are the parameter Library of Bodies,
--                Values the bodies with signatures, Bodies the other ones and MessageBody's dispatch,
--                Envelopes the messages and Message's dispatch. The other children prove.
--   Network      core/NetworkManager.hpp and its _impl.hpp: Frames has the bytes of each send and
--                receive_message, Connections the handlers of accepts, reads and writes on the table
--                of sockets, as events that asio's loop runs. The other children prove.
--   Client       core/QueryClient.hpp and its _impl.hpp: what a meter does with each message.
--   Meter        src/apps/smart_meters/SimSmartMeter.cpp, the meter of the example application, with
--                the FixedPoint numbers of util/FixedPoint.hpp that it needs: run_device; Simulation
--                has the constructor and the timesteps, Measures the measurements, Vectors the
--                aggregation function SUM_VECTORS. Cycles, Running and Start prove.
--   Tests        the theorems at concrete inputs.
--
-- Numbers. An `int` that is never negative is a native number, one that may be -1 is a ℤ of
-- Common.Int. uint32_t and uint64_t wrap as in the source. The `int` product in register_timer, whose
-- overflow C++ leaves undefined, keeps its low 32 bits. Other `int` sums are of IDs and counters,
-- taken as small.
--
-- Fuel. mod_pow_loop and find_path_loop run on fuel. mod_pow gives its loop the exponent, which
-- halves in each round; find_path gives max_round - starting_round, the rounds of its `for` loop.
-- end_overlay_round takes one unit for each round that ends while another one ends, and its callers
-- choose the fuel; `err out_of_fuel` tells that it was too little. body_from_bytes runs on fuel for
-- bodies in bodies; its callers give it the number of bytes in the buffer, which is enough.
--
-- Errors. An exception is a value `err`; undefined behaviour, such as a write past the end of a
-- vector, is `err undefined`.
--
-- Bytes. A buffer is the list of the bytes from the place that is read on, each below 256, and a
-- position in it the rest of the list. Numbers are little-endian and an `int` has four bytes.
--
-- Not modelled. The configuration, printing, hashes, what FixedPoint has beside sums and products;
-- of the applications all but the simulated meter, and of that simulate_projected_usage, the random
-- draws (a parameter) and the reading of devices from files; OpenSSL, which Crypto.Openssl takes as
-- a parameter, and the copies of mutils-serialization and inifile-cpp, which are other projects'
-- code. The server's handlers run one after another: races between its network thread and
-- its timer thread are left out, and query callbacks are recorded but not run.
pub mod Common
pub mod Overlay
pub mod PathFinder
pub mod Messages
pub mod Meter
pub mod Crypto
pub mod Agreement
pub mod Timers
pub mod Aggregation
pub mod Server
pub mod Protocol
pub mod Client
pub mod Serialization
pub mod Network
pub mod Tests
