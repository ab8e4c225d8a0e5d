-- ===== src/Transport/Migration/Tests.antt =====
-- core/lbtp/src/path.rs: runs, and the theorems at concrete inputs.
use lowband.Prelude.{◌≡◌, refl, true, false, none, List, [], ◌∷◌, bytes_eq}
use lowband.Transport.Migration.{ChallengeToken, new, start, tick, on_response, is_migrated}
use lowband.Transport.Migration.Trace.{
  Input, challenge, timer, response, step, run, Answered, run-migrated,
}

abbrev token_a : ChallengeToken
token_a = 1 ∷ 2 ∷ 3 ∷ 4 ∷ 5 ∷ 6 ∷ 7 ∷ 8 ∷ []

abbrev token_b : ChallengeToken
token_b = 9 ∷ 2 ∷ 3 ∷ 4 ∷ 5 ∷ 6 ∷ 7 ∷ 8 ∷ []

abbrev handover : List Input
handover = challenge token_a ∷ timer ∷ challenge token_b ∷ response token_a ∷ response token_b ∷ []

handover-migrates : is_migrated (run new handover) ≡ true
unfolding is_migrated run step new start tick on_response bytes_eq
handover-migrates = refl

stale_answer : is_migrated (run new (challenge token_a ∷ response token_b ∷ [])) ≡ false
unfolding is_migrated run step new start tick on_response bytes_eq
stale_answer = refl

run-migrated_example : Answered none handover
run-migrated_example = run-migrated handover handover-migrates
