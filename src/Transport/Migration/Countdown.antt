-- ===== src/Transport/Migration/Countdown.antt =====
-- core/lbtp/src/path.rs: a challenge that nobody answers ends after a fixed number of ticks.
use lowband.Prelude.{
  ℕ, zero, suc, ◌+◌, ◌*◌, ◌≡◌, refl, arith, Option, none, some, List, [], ◌∷◌, ◌++◌,
}
use lowband.Transport.Migration.{
  ChallengeToken, PathMigrationController, MigrationState, probing, MigrationEvent, retransmit,
  challenge_timeout_ticks, max_challenge_retries, start, tick, tick_in,
}

abbrev events_of : Option MigrationEvent → List MigrationEvent
events_of none = []
events_of (some e) = e ∷ []

-- `n` ticks, with the events they report, oldest first.
unfoldable pub ticks : ℕ → PathMigrationController → PathMigrationController × List MigrationEvent
ticks zero c = (c, [])
ticks (suc n) c = let (c', es) = ticks n (tick c).0 in (c', events_of (tick c).1 ++ es)

abbrev pub resends : ChallengeToken → ℕ → List MigrationEvent
resends t zero = []
resends t (suc n) = retransmit (record { token = t }) ∷ resends t n

-- The recursion is on the ticks, which the counters of the state add up to.
ticks-probing :
    (n : ℕ) (t : ChallengeToken) (retries left : ℕ)
    → n ≡ retries * (challenge_timeout_ticks + 1) + left
    → ticks (suc n) (record { state = probing t retries left }) ≡ (
      record { state = MigrationState.failed },
      resends t retries ++ (MigrationEvent.failed ∷ []),
    )
unfolding ticks tick tick_in
ticks-probing zero t zero zero e = refl
ticks-probing zero t (suc retries) zero e = absurd (omega arith)
ticks-probing zero t retries (suc left) e = absurd (omega arith)
ticks-probing (suc n) t zero zero e = absurd (omega arith)
ticks-probing (suc n) t (suc retries) zero e = cc (ticks-probing n t retries 10 (omega arith))
ticks-probing (suc n) t retries (suc left) e = cc (ticks-probing n t retries left (omega arith))

-- A challenge that stays unanswered is sent again three times, and after the 44th tick, not before, the
-- migration has failed, whatever state the controller was started from.
start-ticks :
    (c : PathMigrationController) (t : ChallengeToken)
    → (ticks 44 (start c t).0 ≡ (
      record { state = MigrationState.failed },
      resends t max_challenge_retries ++ (MigrationEvent.failed ∷ []),
    ))
      × (ticks 43 (start c t).0
          ≡ (record { state = probing t 0 0 }, resends t max_challenge_retries))
unfolding start
start-ticks c t = (
  ticks-probing 43 t max_challenge_retries challenge_timeout_ticks refl,
  unfold ticks tick tick_in in refl,
)
