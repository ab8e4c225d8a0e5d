-- ===== src/Transport/NatKeepalive/Interval.antt =====
-- core/lbtp/src/nat_keepalive.rs: when the keepalives are due.
use lowband.Prelude.{
  ℕ, zero, suc, ◌-◌, ◌≤◌, ◌≡◌, refl, arith, Option, none, some, List, [], ◌∷◌, leb, if◌then◌else◌,
  ltb, ◌&&◌, ◌++◌,
}
use lowband.Transport.NatKeepalive.{
  KeepaliveEvent, keepalive, NatKeepaliveController, clamp_interval, new, tick, reset,
}

abbrev events_of : Option KeepaliveEvent → List KeepaliveEvent
events_of none = []
events_of (some e) = e ∷ []

-- `n` ticks, with the events that they report.
ticks : ℕ → NatKeepaliveController → NatKeepaliveController × List KeepaliveEvent
ticks zero c = (c, [])
ticks (suc n) c = let (c', es) = ticks n (tick c).0 in (c', events_of (tick c).1 ++ es)

-- The events of `n` ticks from a timer.
abbrev pub due : ℕ → ℕ → List KeepaliveEvent
due r n = if ltb 0 r && leb r n then keepalive ∷ [] else []

tick-more :
    (r : ℕ)
    → tick (record { ticks_remaining = suc (suc r) }) ≡ (record { ticks_remaining = suc r }, none)
unfolding tick
tick-more r = ground arith

ticks-due :
    (n r : ℕ)
    → ticks n (record { ticks_remaining = r }) ≡ (record { ticks_remaining = r - n }, due r n)
unfolding ticks tick
ticks-due zero r = ground arith
ticks-due (suc n) zero = ground (arith, ticks-due n 0)
ticks-due (suc n) (suc zero) = ground (arith, ticks-due n 0)
ticks-due (suc n) (suc (suc r)) = rw (tick-more r) (ground (arith, ticks-due n (suc r)))

-- A timer that is armed, anew or again from any state, with any interval is due after 150 to 250 ticks: it
-- reports one keepalive in `n` ticks if they reach the clamped interval, and otherwise none.
reset-ticks :
    (c : NatKeepaliveController) (interval n : ℕ)
    → (150 ≤ clamp_interval interval)
      × (clamp_interval interval ≤ 250)
      × (ticks n (reset c interval) ≡ (
        record { ticks_remaining = clamp_interval interval - n },
        if leb (clamp_interval interval) n then keepalive ∷ [] else [],
      ))
      × (ticks n (new interval) ≡ ticks n (reset c interval))
unfolding reset new clamp_interval
reset-ticks c interval n =
    let e = ticks-due n (clamp_interval interval) in
    (omega arith, omega arith, ground (arith, e), refl)
