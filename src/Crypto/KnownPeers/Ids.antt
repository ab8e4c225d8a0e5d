-- ===== src/Crypto/KnownPeers/Ids.antt =====
-- core/crypto/src/known_peers.rs: the id of a peer names one peer.
use lowband.Prelude.{
  ℕ, zero, suc, ◌+◌, ◌%◌, ◌^◌, ◌≤◌, ◌<◌, ◌≡◌, refl, sym, ap, ◌∙◌, arith, Bool, true, false, none,
  some, List, [], ◌∷◌, ◌++◌, ◌==◌, Bool-cases, Option-cases, inl, inr,
}
use lowband.Crypto.KnownPeers.{
  PeerId, KnownPeer, KnownPeerStore, new, find, position, modify, has_key, has_id, id_at,
  seen_again, set_label, upsert, find_index, get, find_by_key,
}
use lowband.Crypto.KnownPeers.Lookup.{met, find-none, position-Changes, appended_same}

-- The ids go up in the order of insertion, from `low`, and stay below `next`.
abbrev pub IdsUp : ℕ → ℕ → List KnownPeer → Type 0
IdsUp low next [] = low ≤ next
IdsUp low next (p ∷ ps) = (low ≤ p.id) × IdsUp (p.id + 1) next ps

abbrev pub IsValid : KnownPeerStore → Type 0
IsValid store = IdsUp 1 store.next_id store.peers

pub new-IsValid : IsValid new
unfolding new
new-IsValid = omega arith

ids_below : (low next : ℕ) (ps : List KnownPeer) → IdsUp low next ps → low ≤ next
ids_below low next [] h = h
ids_below low next (p ∷ ps) (a, h) = omega (arith, a, ids_below (p.id + 1) next ps h)

IdsUp-append :
    (low next : ℕ) (ps : List KnownPeer) (p : KnownPeer)
    → IdsUp low next ps
    → p.id ≡ next
    → IdsUp low (next + 1) (ps ++ (p ∷ []))
IdsUp-append low next [] p h e = (omega (arith, h, e), omega (arith, e))
IdsUp-append low next (q ∷ ps) p (a, h) e = (a, IdsUp-append (q.id + 1) next ps p h e)

IdsUp-modify :
    (low next : ℕ) (ps : List KnownPeer) (i : ℕ) (f : KnownPeer → KnownPeer)
    → ((p : KnownPeer) → (f p).id ≡ p.id)
    → IdsUp low next ps
    → IdsUp low next (modify i f ps)
IdsUp-modify low next [] i f same h = h
IdsUp-modify low next (p ∷ ps) zero f same (a, h) = rw (same p) (a, h)
IdsUp-modify low next (p ∷ ps) (suc i) f same (a, h) =
    (a, IdsUp-modify (p.id + 1) next ps i f same h)

-- No peer has an id that is not below the next one.
unused_id : (low next : ℕ) (ps : List KnownPeer) → IdsUp low next ps → find (has_id next) ps ≡ none
unused_id low next [] h = refl
unused_id low next (p ∷ ps) (a, h) =
    let below = ids_below (p.id + 1) next ps h in
    let other : (p.id == next) ≡ false = ground (arith, below) in
    rw other (unused_id (p.id + 1) next ps h)

-- A peer that is found has an id in range.
found_range :
    (low next : ℕ) (ps : List KnownPeer) (q : KnownPeer → Bool) (p : KnownPeer)
    → IdsUp low next ps
    → find q ps ≡ some p
    → low ≤ p.id
found_range low next [] q p h e = absurd cc
found_range low next (r ∷ ps) q p (a, h) e = elim (Bool-cases (q r)) [
  | inl here ↦
      let same : some r ≡ some p = rw here at e in let id : r.id ≡ p.id = cc in omega (arith, a, id)
  | inr before ↦ omega (arith, a, found_range (r.id + 1) next ps q p h (rw before at e))
]

-- The peer that a test finds is found by its id, too.
find-has_id :
    (low next : ℕ) (ps : List KnownPeer) (q : KnownPeer → Bool) (p : KnownPeer)
    → IdsUp low next ps
    → find q ps ≡ some p
    → find (has_id p.id) ps ≡ some p
find-has_id low next [] q p h e = absurd cc
find-has_id low next (r ∷ ps) q p (a, h) e = elim (Bool-cases (q r)) [
  | inl here ↦
      let same : some r ≡ some p = rw here at e in
      let id : r.id ≡ p.id = cc in
      let test : (r.id == p.id) ≡ true = ground (arith, id) in rw test same
  | inr before ↦
      let later = rw before at e in
      let above = found_range (r.id + 1) next ps q p h later in
      let test : (r.id == p.id) ≡ false = ground (arith, above) in
      rw test (find-has_id (r.id + 1) next ps q p h later)
]

id_at-find :
    (q : KnownPeer → Bool) (ps : List KnownPeer) (i : ℕ) (p : KnownPeer)
    → position q ps ≡ some i
    → find q ps ≡ some p
    → id_at ps i ≡ p.id
id_at-find q [] i p h e = absurd cc
id_at-find q (r ∷ ps) i p h e = elim (Bool-cases (q r)) [
  | inl here ↦
      let at_start : some 0 ≡ some i = rw here at h in
      let start : i ≡ 0 = cc in
      let same : some r ≡ some p = rw here at e in let id : r.id ≡ p.id = cc in rw start id
  | inr before ↦ elim (Option-cases (position q ps)) [
    | inl gone ↦ let nowhere : none ≡ some i = rw (before, gone) at h in absurd cc
    | inr (j, there) ↦
        let found : some (suc j) ≡ some i = rw (before, there) at h in
        let next : i ≡ suc j = cc in rw next (id_at-find q ps j p there (rw before at e))
  ]
]

upsert-IsValid :
    (store : KnownPeerStore) (key : List ℕ) (now : ℕ)
    → IsValid store
    → store.next_id + 1 < 2 ^ 64
    → IsValid (upsert store key now).0
unfolding upsert find_index
upsert-IsValid store key now h room = elim (Option-cases (position (has_key key) store.peers)) [
  | inl gone ↦
      let next : (store.next_id + 1) % 2 ^ 64 ≡ store.next_id + 1 = omega (arith, room) in
      rw (gone, next)
        (IdsUp-append 1 store.next_id store.peers (met key now store.next_id none) h refl)
  | inr (i, there) ↦
      rw there (IdsUp-modify 1 store.next_id store.peers i (seen_again now) (λ p. refl) h)
]

-- What `upsert` returns is the id of the peer with that key.
upsert-find_by_key :
    (store : KnownPeerStore) (key : List ℕ) (now : ℕ)
    → (p : KnownPeer) × (find_by_key (upsert store key now).0 key ≡ some p)
      × ((upsert store key now).1 ≡ p.id)
unfolding upsert find_index find_by_key
upsert-find_by_key store key now = elim (Option-cases (position (has_key key) store.peers)) [
  | inl gone ↦ rw gone (
    met key now store.next_id none,
    appended_same key now store.next_id store.peers (find-none (has_key key) store.peers gone),
    refl,
  )
  | inr (i, there) ↦
      let c = position-Changes (has_key key) (seen_again now) store.peers i there in
      rw there (
        seen_again now c.element,
        c.changed (λ x. refl),
        id_at-find (has_key key) store.peers i c.element there c.found,
      )
]

-- In a store whose ids go up below the next id, a contact keeps that, and the id that it returns is
-- found: by this id `get` gives the peer that `find_by_key` gives for the key, and it is there. The
-- next id has not reached the end of its range.
get-upsert :
    (store : KnownPeerStore) (key : List ℕ) (now : ℕ)
    → IsValid store
    → store.next_id + 1 < 2 ^ 64
    → let (after, id) = upsert store key now in
      IsValid after
      × (p : KnownPeer) × (get after id ≡ some p)
      × (find_by_key after key ≡ some p)
      × (p.id ≡ id)
unfolding get find_by_key
get-upsert store key now h room =
    let valid = upsert-IsValid store key now h room in
    let (p, found, id) = upsert-find_by_key store key now in
    let after = (upsert store key now).0 in
    (
      valid,
      p,
      ap (λ n. find (has_id n) after.peers) id
          ∙ find-has_id 1 after.next_id after.peers (has_key key) p valid found,
      found,
      sym id,
    )

set_label-IsValid :
    (store : KnownPeerStore) (id : PeerId) (label : List ℕ)
    → IsValid store
    → IsValid (set_label store id label).0
unfolding set_label
set_label-IsValid store id label h = elim (Option-cases (position (has_id id) store.peers)) [
  | inl gone ↦ rw gone h
  | inr (i, there) ↦ rw there (IdsUp-modify 1 store.next_id store.peers i _ (λ p. refl) h)
]
