-- ===== src/Lib.antt =====
-- The core of LowBand, a remote-assistance program for thin links, modelled and proved.
--
-- The program. One UDP flow carries nine channels (voice, input, screen, bulk, messages, ...) between
-- the person who is assisted and the technician. Every interval of 100 ms the governor (core/platform)
-- reads the bandwidth estimate and the load of the machine, moves the quality tier and divides the rate
-- among the streams. The pacer of the transport (core/lbtp) packs queued frames into datagrams in the
-- order of their priority under a token bucket; bulk transfer (core/xfer) uses only the headroom that is
-- left. The transport numbers packets, probes the path MTU and migrates to new addresses; ICE candidates
-- find a path, and where no direct one works, sealed datagrams go through a TURN relay or a byte stream.
-- Camera frames come in temporal layers, of which the upper ones are withheld under congestion. Key and
-- mouse events of the technician go out as delta-coded frames. The daemon tells its shells of tiers,
-- budgets and panics over a local connection. The application channels (core/messaging) carry chat,
-- clipboard and panic messages, and hold the capability grants that consent gives and the panic key or a
-- withdrawal takes away. An audit log is signed and chained, a store remembers the peers (core/crypto),
-- and a transfer that is interrupted resumes from its state file.
--
-- The files.
--   Prelude: shared names, Boolean tests and lists over native numbers, signed numbers (Signed), and the
--     interface of the floating-point type (Float).
--   Transport/Seq: core/lbtp/src/seq.rs. `SeqExpander` and `expand`; Window has the numbers sent and
--     received, Bounds the edges of the number space.
--   Transport/Mtu: core/lbtp/src/mtu.rs. `PathMtuController` with `start_probe`, `tick`, `on_probe_acked`.
--   Transport/Migration: core/lbtp/src/path.rs. `PathMigrationController` with `start`, `tick`,
--     `on_response`; Trace has whole runs, Countdown the timer.
--   Transport/Pacer: core/lbtp/src/pacer.rs. `Pacer` with `enqueue`, `dequeue`, `drain_tick`, `advance`,
--     `set_rate`; Scan, Drained and Coalesce follow one datagram, Admission the queues, Dequeue single frames.
--   Transport/Tcp: core/lbtp/src/tcp_fallback.rs. The framing on a byte stream, `encode` and `push`; Stream
--     and Pieces follow a stream of datagrams in pieces, Progress the states of the reassembler.
--   Transport/Ice: core/lbtp/src/ice_candidate.rs. `IceCandidateGatherer` with `start`, `tick` and the two
--     responses; Runs has its calls in a row, Timeout and Silence its timers, Rank and Order the priorities.
--   Transport/Turn: core/lbtp/src/turn_relay.rs. `TurnRelayController` with its calls, in Timer, and the
--     framing of `TurnChannelDataFramer`, in Frame.
--   Transport/HolePunch: core/lbtp/src/hole_punch.rs. `HolePunchController` with `start`, `tick` and
--     `on_probe_received`. Transport/NatKeepalive: core/lbtp/src/nat_keepalive.rs, the timer.
--   Governor/Tier: tier.rs, tier_downgrade_guard.rs, tier_upgrade_guard.rs and tier_classifier.rs of
--     core/platform/src; Governor/Gears and Governor/Budget: gear_policy.rs and thermal.rs there and
--     core/nn/src/head_gear_gate.rs; Governor/ControlLoop: core/platform/src/control_loop.rs.
--     Governor/Convergence: governor_summary.rs and governor_load_shed.rs of core/platform/src.
--   Transfer/Scheduler: core/xfer/src/scheduler.rs. `BulkTransferScheduler` with `tick`.
--   Transfer/Resume: core/xfer/src/resume.rs. `open`, `load`, `create` and `mark_delivered` on the bytes of
--     the state file; Replay reads it, Recovery and Misread are restarts, Identity the manifest, Remaining
--     what `finish` asks for.
--   Messaging/Wire: core/messaging/src/wire.rs. `encode` and `decode` of `MessageFrame`; RoundTrip and
--     Decoding are the two directions, Taking the parts of a frame.
--   Messaging/Grants: core/messaging/src/grants.rs. Grants, their sessions and the consent that issues them.
--   Messaging/Panic: core/messaging/src/panic_key.rs. `PanicController`, `PanicNotice` and its receiver.
--   Messaging/Chat and Messaging/Clipboard: core/messaging/src/chat.rs and core/messaging/src/clipboard.rs.
--     `send` and `drain`; `apply_remote` and `apply_remote_files`.
--   Messaging/SessionRecords: core/messaging/src/session_records.rs. `SessionRecordStore` with `open`, its updates
--     and `get`; History is any calls, Observer the governor events of core/messaging/src/qos_observer.rs.
--   Messaging/Audit: core/messaging/src/audit.rs. `AuditLog` with `append` and `verify_entries`; Hash is
--     SipHash-2-4 and the hash made of it, Payload the bytes that are signed, Verify and Tamper what is accepted.
--   Crypto/KnownPeers: core/crypto/src/known_peers.rs. `KnownPeerStore` with `upsert`, `get`, `find_by_key`
--     and `set_label`; Lookup, History and Ids are about contacts, Label about labels.
--   Crypto/RelayGuard: core/crypto/src/relay_guard.rs. `DatagramCipher` with `seal` and `open`, and the bridge
--     to Transport/Turn, in Relay; Nonces is about the counter.
--   Platform/TemporalSvc: core/platform/src/temporal_svc.rs. `TemporalSvcController` with `update` and
--     `next_frame`; Reached, Hysteresis and Forwarded are its runs.
--   Platform/Ipc: core/platform/src/ipc.rs, with two types of elevation.rs there. Table is the reader `FbTable`,
--     Codec the frames of events, Stream `read_frame` and `read_loop`, Fanout `broadcast` and `write_loop`;
--     Format is the buffer format that the code relies on.
--   Platform/Input: core/platform/src/input_channel_sender.rs and the events of input_injection.rs there. Varint
--     is the numbers of variable length, Channel the sender, the decoder and, in Coalescer, the coalescer of
--     mouse moves; Session is the two ends together.
--   Platform/ReferenceFrame: core/platform/src/reference_frame_sender.rs. The encoder and the decoder of
--     reference-frame packets; Packet has the two together.
-- A Rust method on `&mut self` is a function that returns the new state with its result.
--
-- Choices.
--   Integers are natural numbers with the wrap-around of the source's width written out where an operation
--     can reach it; the release profile, in which arithmetic wraps, is what is modelled.
--   f64 is the parameter `Float`, a type with the operations that the code uses. The one law that a proof asks
--     of it, `SubLowers`, says that taking an amount off never makes the rest cover a frame that was not covered.
--     The instance `whole` on natural numbers runs the examples.
--   ChaCha20-Poly1305 is the parameter `Aead`, with the laws `IsAead` that its crate documents: a ciphertext is
--     decrypted to its plaintext, and the tag takes 16 bytes. An example runs with a stand-in.
--   `drain_loop` has as fuel the number of queued frames and one more: each restart of the loop takes a
--     frame out of a queue, so that it is enough, which is part of what is proved of `drain_tick`.
--   `push_loop` has as fuel two rounds for each byte and two more: a round that takes no byte either ends the
--     loop or is followed by one that does, so that it is enough, which is part of what is proved of `push`.
--   FlatBufferBuilder is a parameter, the bytes that it finishes with for the slots pushed. Where a proof needs
--     them, they are in the documented format, `IsFlatBuffer`: the root offset, the table with its signed offset
--     to the vtable, and each slot stored or, at its default, left out. An f32 is its bits, and -0.0, which is
--     equal to the default, is not among the values that come back.
--   `read_loop` has fuel for each byte of the stream and one more: a frame takes at least four bytes, so that it
--     is enough. A panic of the reader is a value of `Outcome`.
--   `encode_loop` has as fuel the five bytes that an i32 takes at most, which is enough for any i32.
--     The f64 of a mouse move is a type with the operations that the code uses; no law is asked of them.
--   The state file of a transfer is its bytes, if it exists; a write may come to a prefix of its bytes, and
--     the end of the file is the only error of a read.
--   SipHash computes on numbers; an evaluation of long messages takes the kernel many steps, so that the
--     examples of the audit log go through what is proved.
--   The array index of `Pacer::enqueue` can panic: that is `none`.
--   A clock is an argument. The shared flag behind a `ConsentRevocationHandle` is a place in a store of flags.
--   A `String` is its bytes, `from_utf8` is the table of RFC 3629, `trim` and `is_control` are Unicode's
--     classes; buffers are lists of bytes.
--   The loops and the branches inside a function that the proofs speak of are functions of their own.
--
-- Not modelled: sockets, threads and devices (core/lowbandd, most of core/platform), codecs, inference
-- (core/nn) and cryptographic primitives (the rest of core/crypto), which are calls of the operating system or of other
-- crates; the web server of core/signaling; core/obs, the shells and the benches, which report and show.
-- Of core/lbtp, core/xfer and core/messaging the modules named above are the ones modelled.
pub mod Prelude
pub mod Transport
pub mod Governor
pub mod Transfer
pub mod Messaging
pub mod Crypto
pub mod Platform
