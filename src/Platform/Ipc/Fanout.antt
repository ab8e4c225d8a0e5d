-- ===== src/Platform/Ipc/Fanout.antt =====
-- core/platform/src/ipc.rs: the clients of the server, the bounded channel and the write thread of
-- each, `broadcast` and `IpcClient::send`.
pub mod Delivered
pub mod Complete
use lowband.Prelude.{
  ℕ, zero, suc, Bool, true, false, List, [], ◌∷◌, ◌++◌, length, ltb, if◌then◌else◌,
}
use lowband.Platform.Ipc.{IpcEvent}
use lowband.Platform.Ipc.Codec.{Slot, encode_event}

-- The frames that `sync_channel` holds at most.
abbrev pub channel_bound : ℕ
channel_bound = 32

-- A client: the frames in its channel, whether its write thread still receives, and the frames that
-- it has written to the socket.
pub record Client : Type 0 where
  pub queue : List (List ℕ)
  pub connected : Bool
  pub stream : List (List ℕ)

pub data SendOutcome : Type 0 where
  accepted full disconnected : SendOutcome

unfoldable pub new_client : Client
new_client = record { queue = []; connected = true; stream = [] }

abbrev pub queued_frame : List ℕ → Client → Client
queued_frame frame c = record c { queue = c.queue ++ (frame ∷ []) }

unfoldable pub try_send : Client → List ℕ → Client × SendOutcome
try_send c frame =
    if c.connected
    then if ltb (length c.queue) channel_bound then (queued_frame frame c, accepted) else (c, full)
    else (c, disconnected)

-- The test of `retain`.
abbrev kept : SendOutcome → Bool
kept disconnected = false
kept _ = true

abbrev retained : Client × SendOutcome → List Client → List Client
retained (c, outcome) clients = if kept outcome then c ∷ clients else clients

retain : List ℕ → List Client → List Client
retain frame [] = []
retain frame (c ∷ clients) = retained (try_send c frame) (retain frame clients)

pub client_count : List Client → ℕ
client_count clients = length clients

-- The accept loop adds a client.
pub accept : List Client → List Client
accept clients = clients ++ (new_client ∷ [])

-- One round of `write_loop`: the next frame is written, or its write fails and the thread ends.
unfoldable pub write_round : Bool → Client → Client
write_round ok c = elim c.queue [
  | [] ↦ c
  | frame ∷ queue ↦
      if ok
      then record c { queue = queue; stream = c.stream ++ (frame ∷ []) }
      else record c { queue = []; connected = false }
]

-- The round of the client at a place.
pub write_at : ℕ → Bool → List Client → List Client
write_at i ok [] = []
write_at zero ok (c ∷ clients) = write_round ok c ∷ clients
write_at (suc i) ok (c ∷ clients) = c ∷ write_at i ok clients

module _ (finished_data : List Slot → List ℕ) where
  pub broadcast : List Client → IpcEvent → List Client
  broadcast clients event = retain (encode_event finished_data event) clients
