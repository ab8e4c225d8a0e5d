-- ===== src/Transport/Turn/Tests.antt =====
-- core/lbtp/src/turn_relay.rs: a relay that is used and a message.
use lowband.Prelude.{◌≡◌, ◌↔◌, refl, arith, true, false, not, ◌||◌, none, some, List, [], ◌∷◌, leb}
use lowband.Transport.Turn.{
  active, new, on_direct_path_failed, on_relay_activated, on_relay_ack, tick, is_active, is_failed,
  encode, decode,
}
use lowband.Transport.Turn.Frame.{encode-decode_iff}
use lowband.Transport.Turn.Timer.{
  Input, direct_failed, relay_activated, relay_ack, control_tick, run, ticks, run-is_active,
  is_failed-ticks,
}

encode-decode_iff_example :
    (encode (record { channel_number = 0x4000 }) (7 ∷ 8 ∷ 9 ∷ [])
      ≡ some (0x40 ∷ 0 ∷ 0 ∷ 3 ∷ 7 ∷ 8 ∷ 9 ∷ []))
    ↔ (decode (0x40 ∷ 0 ∷ 0 ∷ 3 ∷ 7 ∷ 8 ∷ 9 ∷ []) ≡ some (0x4000, 7 ∷ 8 ∷ 9 ∷ []))
encode-decode_iff_example =
    encode-decode_iff 0x4000 (7 ∷ 8 ∷ 9 ∷ []) (0x40 ∷ 0 ∷ 0 ∷ 3 ∷ 7 ∷ 8 ∷ 9 ∷ [])
      (
        omega arith,
        (
          omega arith,
          (omega arith, (omega arith, (omega arith, (omega arith, (omega arith, tt))))),
        ),
      )
      (omega arith) (omega arith)

truncated : decode (0x40 ∷ 0 ∷ 0 ∷ 3 ∷ 7 ∷ []) ≡ none
unfolding decode
truncated = refl

abbrev session : List Input
session =
    direct_failed ∷ control_tick ∷ relay_activated ∷ control_tick ∷ control_tick ∷ relay_ack
    ∷ control_tick ∷ []

session_state : (run new 0 session).0.state ≡ active 1199
unfolding new on_direct_path_failed on_relay_activated on_relay_ack tick
session_state = refl

session_kept : (not (is_active (run new 0 session).0) || leb (run new 0 session).1 1200) ≡ true
session_kept = run-is_active session

still_probing : is_failed (ticks 29 (on_direct_path_failed new)) ≡ false
still_probing = is_failed-ticks 29
