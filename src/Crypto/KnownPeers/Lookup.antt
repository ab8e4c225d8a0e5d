-- ===== src/Crypto/KnownPeers/Lookup.antt =====
-- core/crypto/src/known_peers.rs: what a lookup by key finds after `upsert`.
use lowband.Prelude.{
  ℕ, suc, ◌≡◌, ◌≢◌, refl, sym, ◌∙◌, Bool, true, false, Option, none, some, List, [], ◌∷◌, ◌++◌,
  if◌then◌else◌, Bool-cases, Option-cases, inl, inr, bytes_eq, bytes_eq→eq, bytes_eq_self,
}
use lowband.Crypto.KnownPeers.{
  KnownPeer, KnownPeerStore, find, position, modify, has_key, find_index, seen_again, upsert,
  find_by_key,
}

some≢none {ℓ} : {A : Type ℓ} {x : A} → some x ≢ none
some≢none h = cc

-- Position and element are found together.
pub find-none {ℓ} :
    {A : Type ℓ} (p : A → Bool) (xs : List A) → position p xs ≡ none → find p xs ≡ none
find-none p [] h = refl
find-none p (x ∷ xs) h = elim (Bool-cases (p x)) [
  | inl here ↦ absurd (some≢none (rw here at h))
  | inr other ↦ elim (Option-cases (position p xs)) [
    | inl gone ↦ rw other (find-none p xs gone)
    | inr (i, there) ↦ absurd (some≢none (rw (other, there) at h))
  ]
]

find-append_none {ℓ} :
    {A : Type ℓ} (p : A → Bool) (xs ys : List A) → find p xs ≡ none → find p (xs ++ ys) ≡ find p ys
find-append_none p [] ys h = refl
find-append_none p (x ∷ xs) ys h = elim (Bool-cases (p x)) [
  | inl here ↦ absurd (some≢none (rw here at h))
  | inr other ↦ rw other (find-append_none p xs ys (rw other at h))
]

find-append_some {ℓ} :
    {A : Type ℓ} (p : A → Bool) (xs ys : List A) (x : A)
    → find p xs ≡ some x
    → find p (xs ++ ys) ≡ some x
find-append_some p [] ys x h = absurd (some≢none (sym h))
find-append_some p (y ∷ xs) ys x h = elim (Bool-cases (p y)) [
  | inl here ↦ rw here (rw here at h)
  | inr other ↦ rw other (find-append_some p xs ys x (rw other at h))
]

some_injective {ℓ} : {A : Type ℓ} {x y : A} → some x ≡ some y → x ≡ y
some_injective h = cc

-- The first element that passes a test is the one that `modify` changes at its position, where the
-- change leaves tests alone.
module _ {ℓ} {A : Type ℓ} (p : A → Bool) (f : A → A) where
  pub record Changes (xs : List A) (i : ℕ) : Type ℓ where
    pub element : A
    pub passes : p element ≡ true
    pub found : find p xs ≡ some element
    pub changed : ((x : A) → p (f x) ≡ p x) → find p (modify i f xs) ≡ some (f element)
    pub other :
        (q : A → Bool)
        → ((x : A) → q (f x) ≡ q x)
        → q element ≡ false
        → find q (modify i f xs) ≡ find q xs

  pub position-Changes : (xs : List A) (i : ℕ) → position p xs ≡ some i → Changes xs i
  position-Changes [] i h = absurd (some≢none (sym h))
  position-Changes (y ∷ xs) i h = elim (Bool-cases (p y)) [
    | inl here ↦
        let e : i ≡ 0 = sym (some_injective (rw here at h)) in
        rw e (record {
          element = y;
          passes = here;
          found = (rw here refl);
          changed = (λ same. rw (same y, here) refl);
          other = (λ q same this. rw (same y, this) refl);
        })
    | inr before ↦ elim (Option-cases (position p xs)) [
      | inl gone ↦ absurd (some≢none (sym (rw (before, gone) at h)))
      | inr (j, there) ↦
          let e : i ≡ suc j = sym (some_injective (rw (before, there) at h)) in
          let c = position-Changes xs j there in
          rw e (record {
            element = c.element;
            passes = c.passes;
            found = (rw before c.found);
            changed = (λ same. rw before (c.changed same));
            other = (λ q same this. elim (Bool-cases (q y)) [
              | inl stands ↦ rw stands refl
              | inr passed ↦ rw passed (c.other q same this)
            ]);
          })
    ]
  ]

-- A peer after a contact with its key.
abbrev pub met : List ℕ → ℕ → ℕ → Option KnownPeer → KnownPeer
met key now next_id (some p) = seen_again now p
met key now next_id none = record {
  id = next_id;
  static_pubkey = key;
  display_label = none;
  first_seen_at_ms = now;
  last_seen_at_ms = now;
}

has_key_other :
    (key k : List ℕ) (p : KnownPeer)
    → bytes_eq key k ≡ false
    → has_key key p ≡ true
    → has_key k p ≡ false
has_key_other key k p h e =
    let same : p.static_pubkey ≡ key = bytes_eq→eq p.static_pubkey key e in rw same h

pub appended_same :
    (key : List ℕ) (now id : ℕ) (ps : List KnownPeer)
    → find (has_key key) ps ≡ none
    → find (has_key key) (ps ++ (met key now id none ∷ [])) ≡ some (met key now id none)
appended_same key now id ps gone =
    find-append_none (has_key key) ps (met key now id none ∷ []) gone ∙ rw (bytes_eq_self key) refl

appended_other :
    (key k : List ℕ) (now id : ℕ) (ps : List KnownPeer)
    → bytes_eq key k ≡ false
    → find (has_key k) (ps ++ (met key now id none ∷ [])) ≡ find (has_key k) ps
appended_other key k now id ps h = elim (Option-cases (find (has_key k) ps)) [
  | inl gone ↦ find-append_none (has_key k) ps (met key now id none ∷ []) gone ∙ rw (h, gone) refl
  | inr (p, known) ↦ find-append_some (has_key k) ps (met key now id none ∷ []) p known ∙ sym known
]

-- After a contact with `key`, the peer with that key is the one that was known, seen again, or a new
-- one with the next id, and the peer with another key is the same as before.
pub find_by_key-upsert :
    (store : KnownPeerStore) (key : List ℕ) (now : ℕ) (k : List ℕ)
    → find_by_key (upsert store key now).0 k ≡ (
        if bytes_eq key k
        then some (met key now store.next_id (find_by_key store key))
        else find_by_key store k)
unfolding find_by_key upsert find_index
find_by_key-upsert store key now k = elim (Option-cases (position (has_key key) store.peers)) [
  | inl gone ↦
      let first = find-none (has_key key) store.peers gone in
      elim (Bool-cases (bytes_eq key k)) [
        | inl same ↦
            rw (gone, same, first, sym (bytes_eq→eq key k same))
              (appended_same key now store.next_id store.peers first)
        | inr other ↦ rw (gone, other) (appended_other key k now store.next_id store.peers other)
      ]
  | inr (i, there) ↦
      let c = position-Changes (has_key key) (seen_again now) store.peers i there in
      elim (Bool-cases (bytes_eq key k)) [
        | inl same ↦ rw (there, same, c.found, sym (bytes_eq→eq key k same)) (c.changed (λ x. refl))
        | inr other ↦
            rw (there, other)
              (c.other (has_key k) (λ x. refl) (has_key_other key k c.element other c.passes))
      ]
]
