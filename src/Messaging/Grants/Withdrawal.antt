-- ===== src/Messaging/Grants/Withdrawal.antt =====
-- core/messaging/src/grants.rs: consent that is withdrawn stays so, and only for its own grants.
use lowband.Prelude.{
  ℕ, zero, suc, ◌≤◌, ◌<◌, ◌≡◌, ◌≢◌, refl, sym, ap, ◌∙◌, arith, true, false, Option, none, some, [],
  ◌∷◌, ◌++◌, length, leb, if◌then◌else◌, length-append, length-set, get_or, set,
}
use lowband.Messaging.Grants.{
  Store, Handle, new_handle, withdraw, is_withdrawn, CapabilityError, grant_expired,
  consent_withdrawn, Verdict, accepted, rejected, ViewSession, ControlSession, FileSession, revoked,
  is_expired, check_grant, apply_frame, apply_event, apply_chunk, ConsentGrant, Issued, deadline_at,
  issue_all,
}

-- What the holders of the handles do to the flags: a new consent is given, or one is withdrawn.
pub data Later : Store → Store → Type 0 where
  now_already : {s : Store} → Later s s
  consented : {s s' : Store} → Later (new_handle s).1 s' → Later s s'
  withdrew : {s s' : Store} (h : Handle) → Later (withdraw s h) s' → Later s s'

withdraw_keeps :
    (s : Store) (h k : ℕ) → get_or s h false ≡ true → get_or (set s k true) h false ≡ true
withdraw_keeps [] h k e = e
withdraw_keeps (b ∷ s) zero zero e = refl
withdraw_keeps (b ∷ s) zero (suc k) e = e
withdraw_keeps (b ∷ s) (suc h) zero e = e
withdraw_keeps (b ∷ s) (suc h) (suc k) e = withdraw_keeps s h k e

append_keeps : (s : Store) (h : ℕ) → get_or s h false ≡ get_or (s ++ (false ∷ [])) h false
append_keeps [] zero = refl
append_keeps [] (suc h) = refl
append_keeps (b ∷ s) zero = refl
append_keeps (b ∷ s) (suc h) = append_keeps s h

withdraw_sets : (s : Store) (h : ℕ) → h < length s → get_or (set s h true) h false ≡ true
withdraw_sets [] h e = elim e [ ]
withdraw_sets (b ∷ s) zero e = refl
withdraw_sets (b ∷ s) (suc h) e = withdraw_sets s h (omega arith)

Later-is_withdrawn :
    {s s' : Store} (h : Handle) → Later s s' → is_withdrawn s h ≡ true → is_withdrawn s' h ≡ true
unfolding is_withdrawn new_handle withdraw
Later-is_withdrawn h now_already e = e
Later-is_withdrawn {s = s} h (consented l) e =
    Later-is_withdrawn h l (rw (sym (append_keeps s h)) e)
Later-is_withdrawn {s = s} h (withdrew k l) e = Later-is_withdrawn h l (withdraw_keeps s h k e)

Later-length : {s s' : Store} → Later s s' → length s ≤ length s'
unfolding new_handle withdraw
Later-length now_already = omega arith
Later-length {s = s} (consented l) = omega (arith, Later-length l, length-append s (false ∷ []))
Later-length {s = s} (withdrew k l) = omega (arith, Later-length l, length-set s k true)

-- The sessions of one consent, each holding the grant that was issued for it.
abbrev pub view_of : Issued → ViewSession
view_of issued = record { grant = some issued.view }

abbrev pub control_of : Issued → ControlSession
control_of issued = record { grant = some issued.control }

abbrev pub file_of : Issued → FileSession
file_of issued = record { grant = some issued.file }

-- What is asked of the three sessions of a consent gets this answer, at every moment from `from` on.
abbrev pub AllReject : Store → Issued → CapabilityError → Type 0
AllReject store issued error =
    ((now : ℕ) → apply_frame store now (view_of issued) ≡ rejected error)
    × ((now : ℕ) → apply_event store now (control_of issued) ≡ rejected error)
    × (apply_chunk store (file_of issued) ≡ rejected error)

withdrawn_after :
    (start mid later : Store)
    → Later (new_handle start).1 mid
    → Later (withdraw mid (new_handle start).0) later
    → is_withdrawn later (new_handle start).0 ≡ true
unfolding new_handle is_withdrawn withdraw
withdrawn_after start mid later before after =
    let long : suc (length start) ≤ length mid =
      omega (arith, Later-length before, length-append start (false ∷ [])) in
    Later-is_withdrawn (length start) after (withdraw_sets mid (length start) (omega arith))

-- Once the handle of a consent is withdrawn, each of its three grants rejects every operation as
-- withdrawn, at every moment and whatever happens to this and other consents before and afterwards.
pub issue_all-withdraw :
    (grant : ConsentGrant) (start mid later : Store) (issued_at : ℕ)
    → Later (issue_all start issued_at grant).store mid
    → Later (withdraw mid (issue_all start issued_at grant).handle) later
    → AllReject later (issue_all start issued_at grant) consent_withdrawn
unfolding issue_all apply_frame apply_event apply_chunk check_grant revoked
issue_all-withdraw grant start mid later issued_at before after =
    let off = withdrawn_after start mid later before after in (λ now. rw off, λ now. rw off, rw off)

-- The handle `h` is left alone: only other handles are withdrawn.
pub data Avoiding (h : Handle) : Store → Store → Type 0 where
  already : {s : Store} → Avoiding h s s
  new_consent : {s s' : Store} → Avoiding h (new_handle s).1 s' → Avoiding h s s'
  withdrew_other :
      {s s' : Store} (k : Handle) → h ≢ k → Avoiding h (withdraw s k) s' → Avoiding h s s'

set_other : (s : Store) (h k : ℕ) → h ≢ k → get_or (set s k true) h false ≡ get_or s h false
set_other [] h k ne = refl
set_other (b ∷ s) zero zero ne = absurd (ne refl)
set_other (b ∷ s) zero (suc k) ne = refl
set_other (b ∷ s) (suc h) zero ne = refl
set_other (b ∷ s) (suc h) (suc k) ne = set_other s h k (λ e. ne (ap suc e))

Avoiding-is_withdrawn :
    {h : Handle} {s s' : Store} → Avoiding h s s' → is_withdrawn s' h ≡ is_withdrawn s h
unfolding is_withdrawn new_handle withdraw
Avoiding-is_withdrawn already = refl
Avoiding-is_withdrawn {h = h} {s = s} (new_consent a) =
    Avoiding-is_withdrawn a ∙ sym (append_keeps s h)
Avoiding-is_withdrawn {h = h} {s = s} (withdrew_other k ne a) =
    Avoiding-is_withdrawn a ∙ set_other s h k ne

fresh_false : (s : Store) → get_or (s ++ (false ∷ [])) (length s) false ≡ false
fresh_false [] = refl
fresh_false (b ∷ s) = fresh_false s

-- The answer of the two grants of a consent that can expire.
abbrev pub until : ℕ → Option ℕ → Verdict
until now none = accepted
until now (some deadline) = if leb deadline now then rejected grant_expired else accepted

live_after :
    (start later : Store)
    → Avoiding (new_handle start).0 (new_handle start).1 later
    → is_withdrawn later (new_handle start).0 ≡ false
unfolding new_handle is_withdrawn
live_after start later avoided = Avoiding-is_withdrawn avoided ∙ fresh_false start

check_grant-until :
    (store : Store) (h : Handle) (now : ℕ) (deadline : Option ℕ)
    → is_withdrawn store h ≡ false
    → check_grant store now (some h) deadline ≡ until now deadline
unfolding check_grant revoked is_expired
check_grant-until store h now none live = rw live
check_grant-until store h now (some deadline) live = rw live

-- While its own handle is not withdrawn, whatever happens to other consents, a consent's view and
-- control grants are accepted until the time it was issued plus its duration, at every moment if it has none, and
-- are rejected as expired from then on, both at the same moment; its file grant is always accepted.
issue_all-Avoiding :
    (grant : ConsentGrant) (start later : Store) (issued_at now : ℕ)
    → Avoiding
        (issue_all start issued_at grant).handle
        (issue_all start issued_at grant).store
        later
    → let issued = issue_all start issued_at grant in
      let answer = until now (deadline_at issued_at grant.duration) in
      (apply_frame later now (view_of issued) ≡ answer)
      × (apply_event later now (control_of issued) ≡ answer)
      × (apply_chunk later (file_of issued) ≡ accepted)
unfolding issue_all apply_frame apply_event apply_chunk revoked
issue_all-Avoiding grant start later issued_at now avoided =
    let live = live_after start later avoided in
    let both =
      check_grant-until later (new_handle start).0 now (deadline_at issued_at grant.duration)
        live in
    (both, both, rw live)
