-- ===== src/Crypto/KnownPeers/History.antt =====
-- core/crypto/src/known_peers.rs: the store after any contacts.
use lowband.Prelude.{
  ℕ, max, ◌≡◌, refl, ap, ◌∙◌, arith, Option, none, some, List, [], ◌∷◌, ltb, if◌then◌else◌,
  Bool-cases, inl, inr, bytes_eq, bytes_eq→eq,
}
use lowband.Crypto.KnownPeers.{KnownPeer, KnownPeerStore, new, upsert, find_by_key}
use lowband.Crypto.KnownPeers.Lookup.{met, find_by_key-upsert}

-- `upsert` on each contact, a key and a time.
abbrev pub meet_all : KnownPeerStore → List (List ℕ × ℕ) → KnownPeerStore
meet_all store [] = store
meet_all store ((key, now) ∷ contacts) = meet_all (upsert store key now).0 contacts

-- The times of the contacts with one key.
abbrev pub times_of : List ℕ → List (List ℕ × ℕ) → List ℕ
times_of k [] = []
times_of k ((key, now) ∷ contacts) =
    let rest = times_of k contacts in if bytes_eq key k then now ∷ rest else rest

abbrev pub maximum : ℕ → List ℕ → ℕ
maximum m [] = m
maximum m (t ∷ ts) = maximum (max m t) ts

-- The first of the times, and the greatest.
abbrev pub first_and_greatest : List ℕ → Option (ℕ × ℕ)
first_and_greatest [] = none
first_and_greatest (t ∷ ts) = some (t, maximum t ts)

abbrev pub seen_times : Option KnownPeer → Option (ℕ × ℕ)
seen_times none = none
seen_times (some p) = some (p.first_seen_at_ms, p.last_seen_at_ms)

abbrev continue_with : Option (ℕ × ℕ) → List ℕ → Option (ℕ × ℕ)
continue_with none ts = first_and_greatest ts
continue_with (some (first, last)) ts = some (first, maximum last ts)

continue_nil : (o : Option (ℕ × ℕ)) → o ≡ continue_with o []
continue_nil none = refl
continue_nil (some (first, last)) = refl

met_times :
    (key : List ℕ) (now id : ℕ) (o : Option KnownPeer) (ts : List ℕ)
    → continue_with (seen_times (some (met key now id o))) ts
      ≡ continue_with (seen_times o) (now ∷ ts)
met_times key now id none ts = refl
met_times key now id (some p) ts =
    let later : (if ltb p.last_seen_at_ms now then now else p.last_seen_at_ms)
        ≡ max p.last_seen_at_ms now =
      ground arith in
    ap (λ m. some (p.first_seen_at_ms, maximum m ts)) later

meet_all-seen_times :
    (store : KnownPeerStore) (contacts : List (List ℕ × ℕ)) (k : List ℕ)
    → seen_times (find_by_key (meet_all store contacts) k)
      ≡ continue_with (seen_times (find_by_key store k)) (times_of k contacts)
meet_all-seen_times store [] k = continue_nil (seen_times (find_by_key store k))
meet_all-seen_times store ((key, now) ∷ contacts) k =
    let found = find_by_key-upsert store key now k in
    meet_all-seen_times (upsert store key now).0 contacts k
    ∙ ap (λ o. continue_with (seen_times o) (times_of k contacts)) found
    ∙ elim (Bool-cases (bytes_eq key k)) [
      | inl same ↦
          rw (same, bytes_eq→eq key k same)
            (met_times k now store.next_id (find_by_key store k) (times_of k contacts))
      | inr other ↦ rw other refl
    ]

find_by_key-new : (k : List ℕ) → find_by_key new k ≡ none
unfolding find_by_key new
find_by_key-new k = refl

-- After any contacts with any keys, in any order and with any times, a key is known if and only if
-- there was a contact with it; it was first seen at the time of its first contact and last seen at the
-- greatest of its times.
pub find_by_key-meet_all :
    (contacts : List (List ℕ × ℕ)) (k : List ℕ)
    → seen_times (find_by_key (meet_all new contacts) k) ≡ first_and_greatest (times_of k contacts)
find_by_key-meet_all contacts k =
    meet_all-seen_times new contacts k
    ∙ ap (λ o. continue_with (seen_times o) (times_of k contacts)) (find_by_key-new k)
