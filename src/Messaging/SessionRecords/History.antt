-- ===== src/Messaging/SessionRecords/History.antt =====
-- core/messaging/src/session_records.rs: the record of a connection after any calls.
use lowband.Prelude.{
  ℕ, zero, suc, ◌≡◌, ◌≢◌, refl, arith, Bool, true, false, Option, none, some, List, [], ◌∷◌, ◌++◌,
  ◌==◌, if◌then◌else◌, Option-cases, Bool-cases, inl, inr, sym, ap, ◌∙◌,
}
use lowband.Messaging.SessionRecords.{
  Tier, SessionRecord, SessionRecordStore, new, position, find_index, modify, opened, open_session,
  update_at, closed, counted, peaked, close, update_bytes, update_peak_tier, get_at, get,
}

-- The first record of a connection.
unfoldable pub lookup : ℕ → List SessionRecord → Option SessionRecord
lookup c [] = none
lookup c (r ∷ rs) = let rest = lookup c rs in if r.connection_id == c then some r else rest

get_at-position : (c : ℕ) (rs : List SessionRecord) → get_at (position c rs) rs ≡ lookup c rs
unfolding position lookup
get_at-position c [] = refl
get_at-position c (r ∷ rs) = elim (Bool-cases (r.connection_id == c)) [
  | inl e ↦ simp e refl
  | inr e ↦ elim (Option-cases (position c rs)) [
    | inl none_left ↦ ground (arith, e, none_left, get_at-position c rs)
    | inr (i, there) ↦ ground (arith, e, there, get_at-position c rs)
  ]
]

abbrev pub map_record :
    (SessionRecord → SessionRecord) → Option SessionRecord → Option SessionRecord
map_record f none = none
map_record f (some r) = some (f r)

abbrev pub or_else : Option SessionRecord → SessionRecord → Option SessionRecord
or_else none r = some r
or_else (some r') r = some r'

abbrev is_some : {X : Type 0} → Option X → Bool
is_some none = false
is_some (some x) = true

is_some-position :
    (c : ℕ) (rs : List SessionRecord) → is_some (position c rs) ≡ is_some (lookup c rs)
unfolding position lookup
is_some-position c [] = refl
is_some-position c (r ∷ rs) = elim (Bool-cases (r.connection_id == c)) [
  | inl e ↦ simp e refl
  | inr e ↦ elim (Option-cases (position c rs)) [
    | inl none_left ↦ simp e (rw none_left (rw none_left at (is_some-position c rs)))
    | inr (i, there) ↦ simp e (rw there (rw there at (is_some-position c rs)))
  ]
]

lookup-append :
    (c : ℕ) (rs : List SessionRecord) (new : SessionRecord)
    → lookup c (rs ++ (new ∷ []))
      ≡ (if new.connection_id == c then or_else (lookup c rs) new else lookup c rs)
unfolding lookup
lookup-append c [] new = refl
lookup-append c (r ∷ rs) new = ground (arith, lookup-append c rs new)

position-zero :
    (c : ℕ) (r : SessionRecord) (rs : List SessionRecord)
    → position c (r ∷ rs) ≡ some 0
    → r.connection_id ≡ c
unfolding position
position-zero c r rs h = elim (Option-cases (position c rs)) [
  | inl none_left ↦ ground (arith, h, none_left)
  | inr (i, there) ↦ ground (arith, h, there)
]

position-suc :
    (c i : ℕ) (r : SessionRecord) (rs : List SessionRecord)
    → position c (r ∷ rs) ≡ some (suc i)
    → (r.connection_id ≢ c) × (position c rs ≡ some i)
unfolding position
position-suc c i r rs h = elim (Option-cases (position c rs)) [
  | inl none_left ↦ ground (arith, h, none_left)
  | inr (j, there) ↦ ground (arith, h, there)
]

lookup-modify :
    (c c' i : ℕ) (rs : List SessionRecord) (f : SessionRecord → SessionRecord)
    → ((r : SessionRecord) → (f r).connection_id ≡ r.connection_id)
    → position c' rs ≡ some i
    → lookup c (modify i f rs) ≡ (if c' == c then map_record f (lookup c rs) else lookup c rs)
unfolding lookup modify position
lookup-modify c c' i [] f keeps h = cc
lookup-modify c c' zero (r ∷ rs) f keeps h =
    let e = position-zero c' r rs h in ground (arith, keeps r, e)
lookup-modify c c' (suc i) (r ∷ rs) f keeps h =
    let (ne, p) = position-suc c' i r rs h in ground (arith, ne, lookup-modify c c' i rs f keeps p)

-- The calls on the store.
pub data Call : Type 0 where
  opening : ℕ → Option (List ℕ) → ℕ → Call
  closing : ℕ → ℕ → Call
  counting : ℕ → ℕ → Call
  peaking : ℕ → Tier → Call

abbrev pub step : SessionRecordStore → Call → SessionRecordStore
step store (opening c peer_key started_at_ms) = open_session store c peer_key started_at_ms
step store (closing c ended_at_ms) = (close store c ended_at_ms).0
step store (counting c total_bytes) = (update_bytes store c total_bytes).0
step store (peaking c tier) = (update_peak_tier store c tier).0

abbrev pub run : SessionRecordStore → List Call → SessionRecordStore
run store [] = store
run store (call ∷ calls) = run (step store call) calls

-- What a call makes of the record of one connection: the calls for other connections leave it alone,
-- a connection is opened once, and each later call changes one field.
abbrev pub after : ℕ → Option SessionRecord → Call → Option SessionRecord
after c r (opening c' peer_key started_at_ms) =
    if c' == c then or_else r (opened c' peer_key started_at_ms) else r
after c r (closing c' ended_at_ms) = if c' == c then map_record (closed ended_at_ms) r else r
after c r (counting c' total_bytes) = if c' == c then map_record (counted total_bytes) r else r
after c r (peaking c' tier) = if c' == c then map_record (peaked tier) r else r

abbrev pub history : ℕ → Option SessionRecord → List Call → Option SessionRecord
history c r [] = r
history c r (call ∷ calls) = history c (after c r call) calls

absent : (c : ℕ) (rs : List SessionRecord) → position c rs ≡ none → lookup c rs ≡ none
absent c rs h = sym (rw h at (get_at-position c rs))

present :
    (c i : ℕ) (rs : List SessionRecord)
    → position c rs ≡ some i
    → (r : SessionRecord) × (lookup c rs ≡ some r)
present c i rs h = elim (Option-cases (lookup c rs)) [
  | inl none_left ↦ cc (is_some-position c rs, ap is_some h, ap is_some none_left)
  | inr there ↦ there
]

-- A record is found, and an update goes through, where one is there.
pub get-lookup : (store : SessionRecordStore) (c : ℕ) → get store c ≡ lookup c store.records
unfolding get find_index
get-lookup store c = get_at-position c store.records

update-lookup :
    (store : SessionRecordStore) (c c' : ℕ) (f : SessionRecord → SessionRecord)
    → ((r : SessionRecord) → (f r).connection_id ≡ r.connection_id)
    → lookup c (update_at (find_index store c') store f).0.records
      ≡ (if c' == c then map_record f (lookup c store.records) else lookup c store.records)
unfolding find_index
update-lookup store c c' f keeps = elim (Option-cases (position c' store.records)) [
  | inl out ↦ rw out (ground (arith, absent c' store.records out))
  | inr (i, there) ↦ rw there (lookup-modify c c' i store.records f keeps there)
]

open-lookup :
    (store : SessionRecordStore) (c c' : ℕ) (peer_key : Option (List ℕ)) (started_at_ms : ℕ)
    → lookup c (open_session store c' peer_key started_at_ms).records ≡ (
        if c' == c
        then or_else (lookup c store.records) (opened c' peer_key started_at_ms)
        else lookup c store.records)
unfolding open_session find_index
open-lookup store c c' peer_key started_at_ms = elim (Option-cases (position c' store.records)) [
  | inl out ↦ rw out (lookup-append c store.records (opened c' peer_key started_at_ms))
  | inr (i, there) ↦ let (r, e) = present c' i store.records there in rw there (ground (arith, e))
]

answered :
    (i : Option ℕ) (store : SessionRecordStore) (f : SessionRecord → SessionRecord)
    → (update_at i store f).1 ≡ is_some i
answered none store f = refl
answered (some i) store f = refl

update-answers :
    (store : SessionRecordStore) (c : ℕ) (f : SessionRecord → SessionRecord)
    → (update_at (find_index store c) store f).1 ≡ is_some (lookup c store.records)
unfolding find_index
update-answers store c f =
    answered (position c store.records) store f ∙ is_some-position c store.records

pub step-lookup :
    (store : SessionRecordStore) (c : ℕ) (call : Call)
    → lookup c (step store call).records ≡ after c (lookup c store.records) call
unfolding close update_bytes update_peak_tier
step-lookup store c (opening c' peer_key started_at_ms) =
    open-lookup store c c' peer_key started_at_ms
step-lookup store c (closing c' ended_at_ms) =
    update-lookup store c c' (closed ended_at_ms) (λ r. refl)
step-lookup store c (counting c' total_bytes) =
    update-lookup store c c' (counted total_bytes) (λ r. refl)
step-lookup store c (peaking c' tier) = update-lookup store c c' (peaked tier) (λ r. refl)

run-lookup :
    (store : SessionRecordStore) (c : ℕ) (calls : List Call)
    → lookup c (run store calls).records ≡ history c (lookup c store.records) calls
run-lookup store c [] = refl
run-lookup store c (call ∷ calls) =
    run-lookup (step store call) c calls
    ∙ ap (λ (r : Option SessionRecord). history c r calls) (step-lookup store c call)

-- After any calls the store gives, for each connection, the record that its own calls make, in their
-- order and whatever the calls for others; a further update answers whether there is one.
pub get-run :
    (c ended_at_ms : ℕ) (calls : List Call)
    → (get (run new calls) c ≡ history c none calls)
      × ((close (run new calls) c ended_at_ms).1 ≡ is_some (history c none calls))
unfolding new lookup close
get-run c ended_at_ms calls =
    let e = run-lookup new c calls in
    (
      get-lookup (run new calls) c ∙ e,
      update-answers (run new calls) c (closed ended_at_ms) ∙ ap is_some e,
    )
