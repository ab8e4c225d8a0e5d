-- ===== src/Transport/Migration/Trace.antt =====
-- core/lbtp/src/path.rs: a connection migrates only on the answer to the latest challenge.
use lowband.Prelude.{
  ℕ, zero, suc, ◌≡◌, refl, sym, ap, arith, Bool, true, false, Option, none, some, List, [], ◌∷◌,
  ◌++◌, ◌⊎◌, inl, inr, bytes_eq, bytes_eq→eq, bytes_eq_self, if◌then◌else◌,
}
use lowband.Transport.Migration.{
  ChallengeToken, PathMigrationController, MigrationState, idle, probing, tick_in, response_in,
  start, tick, on_response, is_migrated, migrated_state, new,
}

-- What happens to a controller: a challenge with a token, a timer tick, a response with a token.
pub data Input : Type 0 where
  challenge : ChallengeToken → Input
  timer : Input
  response : ChallengeToken → Input

unfoldable pub step : PathMigrationController → Input → PathMigrationController
step c (challenge t) = (start c t).0
step c timer = (tick c).0
step c (response t) = (on_response c (record { token = t })).0

unfoldable pub run : PathMigrationController → List Input → PathMigrationController
unfolding step
run c [] = c
run c (i ∷ is) = run (step c i) is

-- The token of the latest challenge, if there was one.
abbrev pub latest : Option ChallengeToken → List Input → Option ChallengeToken
latest o [] = o
latest o (challenge t ∷ is) = latest (some t) is
latest o (timer ∷ is) = latest o is
latest o (response t ∷ is) = latest o is

abbrev pub NoChallenge : List Input → Type 0
NoChallenge [] = Unit {0}
NoChallenge (challenge t ∷ is) = ⊥
NoChallenge (timer ∷ is) = NoChallenge is
NoChallenge (response t ∷ is) = NoChallenge is

-- The inputs hold a response with the token of the latest challenge before it, and no challenge behind.
pub record Answered (o : Option ChallengeToken) (is : List Input) : Type 0 where
  pub before : List Input
  pub after : List Input
  pub token : ChallengeToken
  pub splits : is ≡ before ++ (response token ∷ after)
  pub answers : latest o before ≡ some token
  pub settled : NoChallenge after

abbrev token_in : MigrationState → Option ChallengeToken
token_in (probing t retries ticks) = some t
token_in _ = none

latest-none :
    (o : Option ChallengeToken) (is : List Input) {t : ChallengeToken}
    → latest none is ≡ some t
    → latest o is ≡ some t
latest-none o [] h = cc
latest-none o (challenge u ∷ is) h = h
latest-none o (timer ∷ is) h = latest-none o is h
latest-none o (response u ∷ is) h = latest-none o is h

module _ {o : Option ChallengeToken} {is : List Input} where
  push_timer : Answered o is → Answered o (timer ∷ is)
  push_timer a = record {
    before = timer ∷ a.before;
    after = a.after;
    token = a.token;
    splits = ap (λ l. timer ∷ l) a.splits;
    answers = a.answers;
    settled = a.settled;
  }

  push_response : (t : ChallengeToken) → Answered o is → Answered o (response t ∷ is)
  push_response t a = record {
    before = response t ∷ a.before;
    after = a.after;
    token = a.token;
    splits = ap (λ l. response t ∷ l) a.splits;
    answers = a.answers;
    settled = a.settled;
  }

  push_challenge :
      (p : Option ChallengeToken) (t : ChallengeToken)
      → o ≡ some t
      → Answered o is
      → Answered p (challenge t ∷ is)
  push_challenge p t e a = record {
    before = challenge t ∷ a.before;
    after = a.after;
    token = a.token;
    splits = ap (λ l. challenge t ∷ l) a.splits;
    answers = rw (← e) a.answers;
    settled = a.settled;
  }

  weaken : (p : Option ChallengeToken) → o ≡ none → Answered o is → Answered p is
  weaken p e a = record {
    before = a.before;
    after = a.after;
    token = a.token;
    splits = a.splits;
    answers = latest-none p a.before (rw (← e) a.answers);
    settled = a.settled;
  }

-- What one input makes of the state.
abbrev next : MigrationState → Input → MigrationState
next s (challenge t) = probing t 3 10
next (probing t retries (suc ticks)) timer = probing t retries ticks
next (probing t (suc retries) zero) timer = probing t retries 10
next (probing t zero zero) timer = MigrationState.failed
next (probing t retries ticks) (response u) =
    if bytes_eq u t then MigrationState.migrated else probing t retries ticks
next s i = s

next-tick_in :
    (s : MigrationState) (c : PathMigrationController)
    → c.state ≡ s
    → (tick_in s c).0.state ≡ next s timer
unfolding tick_in
next-tick_in idle c e = e
next-tick_in (probing t retries (suc ticks)) c e = refl
next-tick_in (probing t (suc retries) zero) c e = refl
next-tick_in (probing t zero zero) c e = refl
next-tick_in _ c e = e

next-response_in :
    (s : MigrationState) (c : PathMigrationController) (t : ChallengeToken)
    → c.state ≡ s
    → (response_in s c (record { token = t })).0.state ≡ next s (response t)
unfolding response_in
next-response_in (probing u retries ticks) c t e = ground arith
next-response_in _ c t e = e

next-step : (c : PathMigrationController) (i : Input) → (step c i).state ≡ next c.state i
unfolding step start tick on_response
next-step c (challenge t) = refl
next-step c timer = next-tick_in c.state c refl
next-step c (response t) = next-response_in c.state c t refl

abbrev Cause : MigrationState → List Input → Type 0
Cause s is = ((migrated_state s ≡ true) × NoChallenge is) ⊎ Answered (token_in s) is

response-Cause :
    (t u : ChallengeToken) (retries ticks : ℕ) (same : Bool) (is : List Input)
    → bytes_eq u t ≡ same
    → Cause (if same then MigrationState.migrated else probing t retries ticks) is
    → Cause (probing t retries ticks) (response u ∷ is)
unfolding migrated_state
response-Cause t u retries ticks true is e (inl (m, n)) = inr (record {
  before = [];
  after = is;
  token = u;
  splits = refl;
  answers = ap some (sym (bytes_eq→eq u t e));
  settled = n;
})
response-Cause t u retries ticks true is e (inr a) = inr (push_response u (weaken (some t) refl a))
response-Cause t u retries ticks false is e (inl (m, n)) = cc
response-Cause t u retries ticks false is e (inr a) = inr (push_response u a)

next-Cause :
    (s : MigrationState) (i : Input) (is : List Input) → Cause (next s i) is → Cause s (i ∷ is)
unfolding migrated_state
next-Cause s (challenge t) is (inl (m, n)) = cc
next-Cause s (challenge t) is (inr a) = inr (push_challenge (token_in s) t refl a)
next-Cause idle timer is (inl (m, n)) = cc
next-Cause idle timer is (inr a) = inr (push_timer a)
next-Cause (probing t retries (suc ticks)) timer is (inl (m, n)) = cc
next-Cause (probing t retries (suc ticks)) timer is (inr a) = inr (push_timer a)
next-Cause (probing t (suc retries) zero) timer is (inl (m, n)) = cc
next-Cause (probing t (suc retries) zero) timer is (inr a) = inr (push_timer a)
next-Cause (probing t zero zero) timer is (inl (m, n)) = cc
next-Cause (probing t zero zero) timer is (inr a) = inr (push_timer (weaken (some t) refl a))
next-Cause MigrationState.migrated timer is (inl (m, n)) = inl (m, n)
next-Cause MigrationState.migrated timer is (inr a) = inr (push_timer a)
next-Cause MigrationState.failed timer is (inl (m, n)) = cc
next-Cause MigrationState.failed timer is (inr a) = inr (push_timer a)
next-Cause idle (response u) is (inl (m, n)) = cc
next-Cause idle (response u) is (inr a) = inr (push_response u a)
next-Cause (probing t retries ticks) (response u) is k =
    response-Cause t u retries ticks (bytes_eq u t) is refl k
next-Cause MigrationState.migrated (response u) is (inl (m, n)) = inl (m, n)
next-Cause MigrationState.migrated (response u) is (inr a) = inr (push_response u a)
next-Cause MigrationState.failed (response u) is (inl (m, n)) = cc
next-Cause MigrationState.failed (response u) is (inr a) = inr (push_response u a)

run-Cause :
    (c : PathMigrationController) (is : List Input)
    → is_migrated (run c is) ≡ true
    → Cause c.state is
unfolding run is_migrated
run-Cause c [] h = inl (h, tt)
run-Cause c (i ∷ is) h = next-Cause c.state i is (rw next-step at (run-Cause (step c i) is h))

-- A controller that starts idle is migrated only if the peer answered: some response before carries the
-- token of the latest challenge in front of it, and no challenge was issued since.
pub run-migrated : (is : List Input) → is_migrated (run new is) ≡ true → Answered none is
unfolding is_migrated new
run-migrated is h = elim (run-Cause new is h) [ inl (m, n) ↦ cc | inr a ↦ a ]

next-migrated :
    (s : MigrationState) (i : Input) (is : List Input)
    → migrated_state s ≡ true
    → NoChallenge (i ∷ is)
    → (migrated_state (next s i) ≡ true) × NoChallenge is
unfolding migrated_state
next-migrated idle i is h n = cc
next-migrated (probing t retries ticks) i is h n = cc
next-migrated MigrationState.failed i is h n = cc
next-migrated MigrationState.migrated (challenge t) is h n = absurd n
next-migrated MigrationState.migrated timer is h n = (refl, n)
next-migrated MigrationState.migrated (response t) is h n = (refl, n)

run-migrated_stays :
    (c : PathMigrationController) (is : List Input)
    → migrated_state c.state ≡ true
    → NoChallenge is
    → is_migrated (run c is) ≡ true
unfolding run is_migrated
run-migrated_stays c [] h n = h
run-migrated_stays c (i ∷ is) h n =
    let (m, n') = next-migrated c.state i is h n in
    run-migrated_stays (step c i) is (rw next-step m) n'

-- An answer with the token of the challenge in flight always gets through: the controller then is
-- migrated, and stays so whatever else arrives but a new challenge.
run-answered :
    (t : ChallengeToken) (retries ticks : ℕ) (after : List Input)
    → NoChallenge after
    → is_migrated (run (record { state = probing t retries ticks }) (response t ∷ after)) ≡ true
unfolding run
run-answered t retries ticks after n =
    run-migrated_stays _ after (rw (next-step, bytes_eq_self t) (unfold migrated_state in refl)) n
