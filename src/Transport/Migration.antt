-- ===== src/Transport/Migration.antt =====
-- core/lbtp/src/path.rs: connection migration by a path challenge with a timer and retries.
pub mod Trace
pub mod Countdown
mod Tests
use lowband.Prelude.{
  ℕ, zero, suc, Bool, true, false, Option, none, some, List, bytes_eq, if◌then◌else◌,
}

-- The 8 bytes of a token.
abbrev pub ChallengeToken : Type 0
ChallengeToken = List ℕ

abbrev pub challenge_timeout_ticks : ℕ
challenge_timeout_ticks = 10

abbrev pub max_challenge_retries : ℕ
max_challenge_retries = 3

pub record PathChallengeFrame : Type 0 where
  pub token : ChallengeToken

pub record PathResponseFrame : Type 0 where
  pub token : ChallengeToken

pub data MigrationEvent : Type 0 where
  retransmit : PathChallengeFrame → MigrationEvent
  migrated failed : MigrationEvent

-- `probing token retries_left ticks_remaining`
pub data MigrationState : Type 0 where
  idle : MigrationState
  probing : ChallengeToken → ℕ → ℕ → MigrationState
  migrated failed : MigrationState

pub record PathMigrationController : Type 0 where
  pub state : MigrationState

pub new : PathMigrationController
new = record { state = idle }

pub start : PathMigrationController → ChallengeToken → PathMigrationController × PathChallengeFrame
start c token = (
  record { state = probing token max_challenge_retries challenge_timeout_ticks },
  record { token = token },
)

tick_in : MigrationState → PathMigrationController → PathMigrationController × Option MigrationEvent
tick_in (probing token retries (suc ticks)) c =
    (record { state = probing token retries ticks }, none)
tick_in (probing token (suc retries) zero) c = (
  record { state = probing token retries challenge_timeout_ticks },
  some (retransmit (record { token = token })),
)
tick_in (probing token zero zero) c =
    (record { state = MigrationState.failed }, some MigrationEvent.failed)
tick_in _ c = (c, none)

pub tick : PathMigrationController → PathMigrationController × Option MigrationEvent
unfolding tick_in
tick c = tick_in c.state c

response_in :
    MigrationState
    → PathMigrationController
    → PathResponseFrame
    → PathMigrationController × Option MigrationEvent
response_in (probing token retries ticks) c response =
    if bytes_eq response.token token
    then (record { state = MigrationState.migrated }, some MigrationEvent.migrated)
    else (c, none)
response_in _ c response = (c, none)

pub on_response :
    PathMigrationController → PathResponseFrame → PathMigrationController × Option MigrationEvent
unfolding response_in
on_response c response = response_in c.state c response

migrated_state : MigrationState → Bool
migrated_state MigrationState.migrated = true
migrated_state _ = false

pub is_migrated : PathMigrationController → Bool
unfolding migrated_state
is_migrated c = migrated_state c.state

failed_state : MigrationState → Bool
failed_state MigrationState.failed = true
failed_state _ = false

pub is_failed : PathMigrationController → Bool
unfolding failed_state
is_failed c = failed_state c.state

probing_state : MigrationState → Bool
probing_state (probing token retries ticks) = true
probing_state _ = false

pub is_probing : PathMigrationController → Bool
unfolding probing_state
is_probing c = probing_state c.state
