-- ===== src/Lib.antt =====
-- Verification library of LLrdc Casting, the receiver of a low-latency screen caster (Rust).
--
-- A manager process supervises a receiver process. The receiver admits senders by a pairing code or
-- a cloud token, reassembles the access units of their video from packets, plays them, and keeps
-- the statistics that the manager's pages show.
--
-- Files, and the code they model:
-- - Reassembly (src/v4l2_decoder.rs, limits of src/config.rs): packets to access units. Types holds
--   the data, Tag the codec tags, Header the parser of a packet's header, Assemble the handler
--   process_udp_chunk with its entries in flight and the loop of src/webtransport_server.rs that
--   feeds it; below Assemble are the proofs.
-- - Pairing (src/local_pairing.rs): codes, their expiry, and the attempts of each peer; Codes and
--   Lockout hold the proofs. Each method of PairingState is a function on PairingData.
-- - CloudToken (src/cloud_discovery.rs): ConnectionTokenVerifier::verify with its replay cache, and
--   a round of the registration loop, which adopts codes into Pairing.
-- - Management (src/management.rs): Types holds the data, Sessions the connections and the active
--   stream, Metrics frames and reported latency, Estimates measured latency and the snapshot;
--   StreamBounds, Lifecycle, Closing and Reports hold the proofs. Each method of ManagementState is
--   a function on Inner.
-- - Supervisor (src/supervisor.rs): Types holds the state behind SupervisorHandle; the branches of
--   run_supervisor are functions that give the new state and the effects. It holds settings of
--   Config, snapshots of Management and of Pairing. Generations, Watch and Retries hold the proofs.
-- - Config (src/config.rs): ReceiverSettings, its defaults, the environment, validate and
--   load_settings_at.
-- - Edid (src/drm_kms.rs): the score of a mode and the resolutions read from an EDID;
--   Largest holds the proofs.
-- - Control (src/control.rs): the commands of the clients and the telemetry.
-- - Transport (src/webtransport_server.rs): Framing reads and writes the length-prefixed messages,
--   Admission opens a session, Routing handles one message and Sessions a stream; it calls Pairing,
--   CloudToken and Management, feeds Reassembly, and gives commands to ControlLoop.
-- - Playback (src/playback.rs): the pipeline's arguments and configuration, the acknowledgements.
-- - ControlLoop (src/main.rs): Types holds the state, Status the messages, Commands and Frames the
--   branches, Steps the step function with the sessions and the decoder; Idle, Sound, Stops,
--   Announced and Turns hold the proofs.
-- - Ipc (src/receiver_ipc.rs, src/admin_protocol.rs): the answers to the manager.
-- - Http (src/http_server.rs): the stream with a prefix, the redirection, and in Pages the table of
--   pages, the control socket and the choice between them.
-- - Admin (src/admin.rs): the data of the management portal and its test of a request's origin, with
--   the proof in Origin; Reading is the first half of handle_http, Routes the second, Portal the
--   whole with the WebSocket, Socket the Unix socket and its client. It reads and changes the state
--   of Supervisor and checks settings with Config. Below each are its proofs.
-- - Net (src/net.rs): the addresses that are offered; Order has the laws of their comparison, Sorted
--   those of sorted lists, Wired which interfaces have a cable; Collected, Offered and
--   Preferred have the proofs.
-- - Drawing (src/text.rs): characters, texts and the icon of the cloud on a frame buffer; Font holds
--   the glyphs, Loops the rule of a loop, Rooms and Boxes the proofs.
-- - OperationalLog (src/operational_log.rs): the journal; Redact is the redaction, Recent and
--   Floods hold the proofs.
-- - Prelude: Boolean tests, lists, maps with text keys, texts, bytes, results and floats.
--
-- Numbers are natural numbers, with the wrap of a fixed width written out where the code may reach
-- it. Floats are bit patterns: their classes and order are defined, their arithmetic is the
-- parameter FloatOps. Times are natural numbers, of nanoseconds for an Instant and of seconds for
-- the tokens' clock; a handler reads the clock once. A Mutex makes each method one step, and its
-- poisoning is not modelled. A HashMap is an association list; where its order of iteration would
-- show (the entry evicted among several that expire first), the first is taken.
--
-- What is simpler than the code: the channel of frames, which holds two and makes its senders wait,
-- is a list without a limit, so that a stop drops what waits in it and no sender is left to refill
-- it. A method that takes a lock twice (ensure_fallback_code), the last completed number beside the
-- lock of the assemblies, and the wait of a requested restart for the end of its process are one
-- step each. A tick of the supervisor has one time, also for what it measures after the request to
-- the receiver, which may take four seconds. An Instant that a duration is added to does not
-- overflow, where the code would panic for a cloud code with a huge validity. A control stream
-- has only its own changes of the management state; the commands that it sends wait, and what the
-- control loop does to the state meanwhile or after its end is not in it. A read that fails in the
-- body of a request is answered like a body that ends too early.
--
-- Loops are structural recursion. Those of an EDID's extension take fuel 128, the length of the
-- extension in bytes: each round moves the index forward by one byte at least. The loop that reads
-- messages takes the length of the stream, since each message takes its prefix off it. A decimal
-- number takes twenty digits, a port five.
--
-- Base64, JSON, RSA, the random generator, the spawning and waiting of processes, the disk's answers,
-- the enumeration of the interfaces and the replies of the receiver are parameters. The requests of
-- HTTP are taken to be ASCII, so that their bytes are their characters. Not modelled: the start of
-- src/main.rs, the segments of the log's files, the layout and the feeding of the idle page
-- (src/dashboard.rs, the last function of src/text.rs), updates, certificates, and the parts of the
-- files above that only print or do input and output, such as listeners and TLS.
pub mod Admin
pub mod CloudToken
pub mod Config
pub mod Control
pub mod ControlLoop
pub mod Drawing
pub mod Edid
pub mod Http
pub mod Ipc
pub mod Management
pub mod Net
pub mod OperationalLog
pub mod Pairing
pub mod Playback
pub mod Prelude
pub mod Reassembly
pub mod Supervisor
pub mod Transport
