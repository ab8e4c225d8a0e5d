-- ===== src/Platform/Ipc/Stream.antt =====
-- core/platform/src/ipc.rs: the frames on a connection, `read_frame` and `read_loop`. A stream is the
-- list of the bytes that arrive until it ends.
mod Frames
pub mod Session
mod Ends
use lowband.Prelude.{
  ℕ, zero, suc, ◌+◌, ◌-◌, ◌^◌, Bool, Option, none, some, List, [], ◌∷◌, ◌++◌, length, ◌==◌, ltb,
  if◌then◌else◌,
}
use lowband.Messaging.Bytes.{from_le_bytes, split_at_checked}
use lowband.Platform.Ipc.{IpcEvent}
use lowband.Platform.Ipc.Table.{Outcome, panics, returns}
use lowband.Platform.Ipc.Codec.{decode_frame}

-- `io::Error`s of reading: the stream ended, or `InvalidData`.
pub data ReadError : Type 0 where
  unexpected_eof invalid_data : ReadError

pub data Result {κ} (X : Type κ) : Type κ where
  err : ReadError → Result X
  ok : X → Result X

infixl 5 ◌>>=◌
abbrev pub ◌>>=◌ {ℓ κ} : {X : Type ℓ} {Y : Type κ} → Result X → (X → Result Y) → Result Y
err e >>= next = err e
ok x >>= next = next x

abbrev or_eof : Option (List ℕ × List ℕ) → Result (List ℕ × List ℕ)
or_eof none = err unexpected_eof
or_eof (some taken) = ok taken

-- `read_exact` of `n` bytes, and the stream behind them.
abbrev read_exact : ℕ → List ℕ → Result (List ℕ × List ℕ)
read_exact n stream = or_eof (split_at_checked n stream)

read_body : ℕ → List ℕ → Result (List ℕ × List ℕ)
read_body body_len stream = if body_len == 0 then err invalid_data else read_exact body_len stream

pub read_frame : List ℕ → Result (List ℕ × List ℕ)
read_frame stream = do (len_buf, rest) ← read_exact 4 stream; read_body (from_le_bytes len_buf) rest

-- How a read thread ends.
pub data Ending : Type 0 where
  closed panicked out_of_fuel : Ending

-- The events that it sent, and its end.
pub record ReadRun : Type 0 where
  pub delivered : List IpcEvent
  pub ending : Ending

abbrev delivering : IpcEvent → ReadRun → ReadRun
delivering event run = record run { delivered = event ∷ run.delivered }

abbrev ended : Ending → ReadRun
ended ending = record { delivered = []; ending = ending }

-- `tx.send(event)`, with `room` sends to come before the receiver is dropped.
abbrev sent : ℕ → IpcEvent → (ℕ → ReadRun) → ReadRun
sent zero event next = ended closed
sent (suc room) event next = delivering event (next room)

-- A frame that decodes to no event is skipped.
pub read_loop : ℕ → ℕ → List ℕ → ReadRun
read_loop zero room stream = ended out_of_fuel
read_loop (suc fuel) room stream = elim (read_frame stream) [
  | err e ↦ ended closed
  | ok (body, rest) ↦ elim (decode_frame body) [
    | panics ↦ ended panicked
    | returns none ↦ read_loop fuel room rest
    | returns (some event) ↦ sent room event (λ room. read_loop fuel room rest)
  ]
]
