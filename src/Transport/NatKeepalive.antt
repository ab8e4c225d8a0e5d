-- ===== src/Transport/NatKeepalive.antt =====
-- core/lbtp/src/nat_keepalive.rs: the timer of NAT keepalives.
pub mod Interval
use lowband.Prelude.{ℕ, zero, suc, ◌-◌, Bool, Option, none, some, min, max, ◌==◌, if◌then◌else◌}

abbrev pub nat_keepalive_min_ticks : ℕ
nat_keepalive_min_ticks = 150

abbrev pub nat_keepalive_max_ticks : ℕ
nat_keepalive_max_ticks = 250

pub data KeepaliveEvent : Type 0 where
  keepalive : KeepaliveEvent

pub record NatKeepaliveController : Type 0 where
  pub ticks_remaining : ℕ

-- `clamp`
unfoldable pub clamp_interval : ℕ → ℕ
clamp_interval ticks = max nat_keepalive_min_ticks (min ticks nat_keepalive_max_ticks)

unfoldable pub new : ℕ → NatKeepaliveController
new interval_ticks = record { ticks_remaining = clamp_interval interval_ticks }

pub tick : NatKeepaliveController → NatKeepaliveController × Option KeepaliveEvent
tick c =
    if c.ticks_remaining == 0
    then (c, none)
    else (let remaining = c.ticks_remaining - 1 in
        (record { ticks_remaining = remaining }, if remaining == 0 then some keepalive else none))

unfoldable pub reset : NatKeepaliveController → ℕ → NatKeepaliveController
reset c interval_ticks = record { ticks_remaining = clamp_interval interval_ticks }
