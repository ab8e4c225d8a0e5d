-- ===== src/Platform/Ipc/Codec/RoundTrip.antt =====
-- core/platform/src/ipc.rs: an event passes its frame, up to the fields that are not carried.
use lowband.Prelude.{ℕ, ◌+◌, ◌%◌, ◌^◌, ◌<◌, ◌≡◌, refl, arith, some, List, ◌∷◌, ◌++◌, suc, length}
use lowband.Messaging.Bytes.{to_le_bytes}
use lowband.Governor.Gears.{audio_floor_bps}
use lowband.Platform.Ipc.{
  IpcEvent, tier_update, stream_budget, gear_update, elevation_requested, elevation_response,
  panic_fired,
}
use lowband.Platform.Ipc.Table.{returns}
use lowband.Platform.Ipc.Codec.{
  Slot, encode_event, decode_frame, decode_fb, decode_kind, kind_of, slots_of,
}
use lowband.Platform.Ipc.Format.{IsFlatBuffer}
use lowband.Platform.Ipc.Codec.Readers.{
  IsF32, IsPreset, AllU32, carried, read_tier-slots, read_budget-slots, read_gear-slots,
  read_elev_req-slots, read_elev_resp-slots, read_panic-slots,
}
use lowband.Platform.Ipc.Format.Slots.{from_bytes-IsFlatBuffer}

-- The values of an event fit the integers of the source.
abbrev pub InRange : IpcEvent → Type 0
InRange (tier_update tier cpu_percent thermal) = IsF32 cpu_percent
InRange (stream_budget b rtt_ms loss_pct) = AllU32 b × (rtt_ms < 2 ^ 32) × IsF32 loss_pct
InRange (gear_update c) = IsPreset c.max_camera_gear
InRange (elevation_requested reason) = Unit {0}
InRange (elevation_response reason outcome) = Unit {0}
InRange (panic_fired seq) = seq < 2 ^ 32

-- What a shell receives: the resolution and the audio floor are those that it derives, and the frame
-- cap and the quantiser offset are zero.
abbrev pub received : IpcEvent → IpcEvent
received (tier_update tier cpu_percent thermal) = tier_update tier cpu_percent thermal
received (stream_budget b rtt_ms loss_pct) = stream_budget (carried b) rtt_ms loss_pct
received (gear_update c) = gear_update (record c { audio_floor_bps = audio_floor_bps })
received (elevation_requested reason) = elevation_requested reason
received (elevation_response reason outcome) = elevation_response reason outcome
received (panic_fired seq) = panic_fired seq

-- The event of a buffer in the format.
decode_fb-slots_of :
    (buf : List ℕ) (event : IpcEvent)
    → IsFlatBuffer buf (slots_of event)
    → InRange event
    → decode_fb (kind_of event) buf ≡ returns (some (received event))
unfolding decode_fb decode_kind kind_of slots_of
decode_fb-slots_of buf (tier_update tier cpu_percent thermal) h r =
    rw (from_bytes-IsFlatBuffer buf h) (read_tier-slots buf tier cpu_percent thermal h r)
decode_fb-slots_of buf (stream_budget b rtt_ms loss_pct) h (all, rtt, loss) =
    rw (from_bytes-IsFlatBuffer buf h) (read_budget-slots buf b rtt_ms loss_pct h all rtt loss)
decode_fb-slots_of buf (gear_update c) h r =
    rw (from_bytes-IsFlatBuffer buf h) (read_gear-slots buf c h r)
decode_fb-slots_of buf (elevation_requested reason) h r =
    rw (from_bytes-IsFlatBuffer buf h) (read_elev_req-slots buf reason h)
decode_fb-slots_of buf (elevation_response reason outcome) h r =
    rw (from_bytes-IsFlatBuffer buf h) (read_elev_resp-slots buf reason outcome h)
decode_fb-slots_of buf (panic_fired seq) h r =
    rw (from_bytes-IsFlatBuffer buf h) (read_panic-slots buf seq h r)

-- The frame of an event: the length of its body, and the body.
pub encode_event_lem :
    (finished_data : List Slot → List ℕ) (event : IpcEvent)
    → length (finished_data (slots_of event)) < 2 ^ 31
    → encode_event finished_data event
      ≡ to_le_bytes 4 (length (kind_of event ∷ finished_data (slots_of event)))
        ++ (kind_of event ∷ finished_data (slots_of event))
unfolding encode_event
encode_event_lem finished_data event small =
    let n = length (finished_data (slots_of event)) in
    let e : (1 + n % 2 ^ 32) % 2 ^ 32 ≡ suc n = omega arith in rw e refl

pub decode_frame-slots_of :
    (buf : List ℕ) (event : IpcEvent)
    → IsFlatBuffer buf (slots_of event)
    → InRange event
    → decode_frame (kind_of event ∷ buf) ≡ returns (some (received event))
unfolding decode_frame
decode_frame-slots_of buf event h r = decode_fb-slots_of buf event h r
