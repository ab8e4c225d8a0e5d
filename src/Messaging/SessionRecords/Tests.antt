-- ===== src/Messaging/SessionRecords/Tests.antt =====
-- core/messaging/src/session_records.rs: a run of the store.
use lowband.Prelude.{◌≡◌, true, some, none, List, [], ◌∷◌}
use lowband.Messaging.SessionRecords.{constrained, comfortable, new, get, close}
use lowband.Messaging.SessionRecords.Observer.{Budgets}
use lowband.Messaging.SessionRecords.History.{
  Call, opening, closing, counting, peaking, run, get-run,
}

abbrev calls : List Call
calls =
    opening 7 none 100
    ∷ opening 8 (some (1 ∷ [])) 101
    ∷ peaking 7 comfortable
    ∷ counting 8 4
    ∷ peaking 7 constrained
    ∷ opening 7 none 105
    ∷ closing 7 200
    ∷ []

get-run_example :
    (get (run new calls) 7
      ≡ some (record {
        connection_id = 7;
        peer_key = none;
        started_at_ms = 100;
        ended_at_ms = some 200;
        peak_tier = some comfortable;
        total_bytes = 0;
      }))
    × ((close (run new calls) 7 300).1 ≡ true)
get-run_example = get-run 7 300 calls

abbrev rates : Budgets
rates = record {
  audio_bps = 24_000;
  input_bps = 3_000;
  screen_coarse_bps = 20_000;
  camera_bps = 0;
  screen_refinement_bps = 0;
  xfer_bps = 1_000;
}
