-- ===== src/Transport/Mtu/Countdown.antt =====
-- core/lbtp/src/mtu.rs: a probe that nobody acknowledges ends after a fixed number of ticks.
use lowband.Prelude.{
  ℕ, zero, suc, ◌+◌, ◌*◌, ◌≡◌, refl, arith, Option, none, some, List, [], ◌∷◌, ◌++◌,
}
use lowband.Transport.Mtu.{
  PathMtuController, MtuState, idle, probing, complete, MtuEvent, retransmit, probe_failed,
  make_probe, mtu_probe_timeout_ticks, tick, tick_in,
}

-- The ticks that a probe has left, the one that ends it included.
abbrev pub budget : MtuState → ℕ
budget (probing target idx retries ticks) = retries * (mtu_probe_timeout_ticks + 1) + ticks + 1
budget (idle idx) = 0
budget complete = 0

events_of : Option MtuEvent → List MtuEvent
events_of none = []
events_of (some e) = e ∷ []

-- `n` ticks, with the events they report, oldest first.
unfoldable pub ticks : ℕ → PathMtuController → PathMtuController × List MtuEvent
unfolding events_of
ticks zero c = (c, [])
ticks (suc n) c = let (c', es) = ticks n (tick c).0 in (c', events_of (tick c).1 ++ es)

abbrev pub resends : ℕ → ℕ → List MtuEvent
resends target zero = []
resends target (suc n) = retransmit (make_probe target) ∷ resends target n

abbrev at_probe : ℕ → ℕ → ℕ → ℕ → ℕ → PathMtuController
at_probe mtu target idx retries left = record {
  path_mtu = mtu;
  state = probing target idx retries left;
}

abbrev Ends : ℕ → ℕ → ℕ → ℕ → ℕ → ℕ → Type 0
Ends n mtu target idx retries left = ticks (suc n) (at_probe mtu target idx retries left) ≡ (
  record { path_mtu = mtu; state = idle idx },
  resends target retries ++ (probe_failed target ∷ []),
)

-- The recursion is on the ticks, which `budget` counts.
ticks-Ends :
    (n mtu target idx retries left : ℕ)
    → n ≡ retries * 11 + left
    → Ends n mtu target idx retries left
unfolding ticks tick tick_in
ticks-Ends zero mtu target idx zero zero e = refl
ticks-Ends zero mtu target idx (suc retries) zero e = absurd (omega arith)
ticks-Ends zero mtu target idx retries (suc left) e = absurd (omega arith)
ticks-Ends (suc n) mtu target idx zero zero e = absurd (omega arith)
ticks-Ends (suc n) mtu target idx (suc retries) zero e =
    cc (ticks-Ends n mtu target idx retries 10 (omega arith))
ticks-Ends (suc n) mtu target idx retries (suc left) e =
    cc (ticks-Ends n mtu target idx retries left (omega arith))

-- A probe that is not acknowledged is sent again once for each retry left, whenever its timer has run
-- down, and then fails: after exactly its budget of ticks the controller is idle at the same step with
-- its path MTU unchanged, and the failure is the last event.
ticks-budget :
    (mtu target idx retries left : ℕ)
    → ticks
        (budget (probing target idx retries left))
        (record { path_mtu = mtu; state = probing target idx retries left })
      ≡ (
        record { path_mtu = mtu; state = idle idx },
        resends target retries ++ (probe_failed target ∷ []),
      )
ticks-budget mtu target idx retries left =
    let e : retries * 11 + left + 1 ≡ suc (retries * 11 + left) = omega arith in
    rw e (ticks-Ends _ mtu target idx retries left refl)
