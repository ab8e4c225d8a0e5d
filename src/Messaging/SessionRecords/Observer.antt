-- ===== src/Messaging/SessionRecords/Observer.antt =====
-- core/messaging/src/qos_observer.rs: the governor's events, written to the session records.
use lowband.Prelude.{ℕ, ◌+◌, ◌/◌, ◌%◌, ◌^◌, Option, none, some, List, [], ◌∷◌, ◌==◌, if◌then◌else◌}
use lowband.Messaging.SessionRecords.{
  Tier, SessionRecord, SessionRecordStore, new, opened, open_session, closed, peaked, counted,
  close, update_bytes, update_peak_tier, get,
}
use lowband.Messaging.SessionRecords.History.{map_record, or_else}

pub record QosSessionObserver : Type 0 where
  pub store : SessionRecordStore

unfoldable pub new_observer : QosSessionObserver
new_observer = record { store = new }

pub on_session_open : QosSessionObserver → ℕ → Option (List ℕ) → ℕ → QosSessionObserver
on_session_open o connection_id peer_key started_at_ms = record {
  store = open_session o.store connection_id peer_key started_at_ms;
}

pub on_tier_event : QosSessionObserver → ℕ → Tier → QosSessionObserver
on_tier_event o connection_id tier = record {
  store = (update_peak_tier o.store connection_id tier).0;
}

-- The rates of one tick.
pub record Budgets : Type 0 where
  pub audio_bps : ℕ
  pub input_bps : ℕ
  pub screen_coarse_bps : ℕ
  pub camera_bps : ℕ
  pub screen_refinement_bps : ℕ
  pub xfer_bps : ℕ

unfoldable pub bytes_this_tick : Budgets → ℕ
bytes_this_tick b =
    (b.audio_bps + b.input_bps + b.screen_coarse_bps + b.camera_bps + b.screen_refinement_bps
      + b.xfer_bps)
    / 80

abbrev total_or_zero : Option SessionRecord → ℕ
total_or_zero none = 0
total_or_zero (some r) = r.total_bytes

-- The sum is a u64.
pub on_budget_tick : QosSessionObserver → ℕ → Budgets → QosSessionObserver
on_budget_tick o connection_id b =
    let current_total = total_or_zero (get o.store connection_id) in
    record {
      store = (update_bytes o.store connection_id ((current_total + bytes_this_tick b) % 2 ^ 64)).0;
    }

pub on_session_close : QosSessionObserver → ℕ → ℕ → QosSessionObserver
on_session_close o connection_id ended_at_ms = record {
  store = (close o.store connection_id ended_at_ms).0;
}

-- The events of the governor.
pub data Event : Type 0 where
  session_opened : ℕ → Option (List ℕ) → ℕ → Event
  tier_moved : ℕ → Tier → Event
  budget_ticked : ℕ → Budgets → Event
  session_closed : ℕ → ℕ → Event

abbrev pub observe : QosSessionObserver → Event → QosSessionObserver
observe o (session_opened c peer_key started_at_ms) = on_session_open o c peer_key started_at_ms
observe o (tier_moved c tier) = on_tier_event o c tier
observe o (budget_ticked c b) = on_budget_tick o c b
observe o (session_closed c ended_at_ms) = on_session_close o c ended_at_ms

abbrev pub observe_all : QosSessionObserver → List Event → QosSessionObserver
observe_all o [] = o
observe_all o (event ∷ events) = observe_all (observe o event) events

-- The bytes of a tick, added to a record.
abbrev pub added : ℕ → SessionRecord → SessionRecord
added n r = counted ((r.total_bytes + n) % 2 ^ 64) r

-- What an event makes of the record of one connection.
abbrev pub after_event : ℕ → Option SessionRecord → Event → Option SessionRecord
after_event c r (session_opened c' peer_key started_at_ms) =
    if c' == c then or_else r (opened c' peer_key started_at_ms) else r
after_event c r (tier_moved c' tier) = if c' == c then map_record (peaked tier) r else r
after_event c r (budget_ticked c' b) =
    if c' == c then map_record (added (bytes_this_tick b)) r else r
after_event c r (session_closed c' ended_at_ms) =
    if c' == c then map_record (closed ended_at_ms) r else r

abbrev pub after_events : ℕ → Option SessionRecord → List Event → Option SessionRecord
after_events c r [] = r
after_events c r (event ∷ events) = after_events c (after_event c r event) events
