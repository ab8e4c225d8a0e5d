-- ===== src/Crypto/KnownPeers.antt =====
-- core/crypto/src/known_peers.rs: the store of the peers that were met. A key and a string are
-- their bytes, a time is a `u64`.
pub mod Lookup
pub mod History
pub mod Label
pub mod Ids
mod Tests
use lowband.Prelude.{
  ℕ, zero, suc, ◌+◌, ◌%◌, ◌^◌, Bool, true, false, Option, none, some, List, [], ◌∷◌, ◌++◌, length,
  take, ltb, leb, ◌==◌, if◌then◌else◌, bytes_eq,
}
use lowband.Messaging.Utf8.Boundary.{is_char_boundary}

abbrev pub PeerId : Type 0
PeerId = ℕ

pub record KnownPeer : Type 0 where
  pub id : PeerId
  pub static_pubkey : List ℕ
  pub display_label : Option (List ℕ)
  pub first_seen_at_ms : ℕ
  pub last_seen_at_ms : ℕ

pub record KnownPeerStore : Type 0 where
  pub peers : List KnownPeer
  pub next_id : ℕ

unfoldable pub new : KnownPeerStore
new = record { peers = []; next_id = 1 }

abbrev pub advance : Option ℕ → Option ℕ
advance none = none
advance (some i) = some (suc i)

-- `iter().find(..)` and `iter().position(..)`.
module _ {ℓ} {A : Type ℓ} where
  abbrev pub find : (A → Bool) → List A → Option A
  find p [] = none
  find p (x ∷ xs) = let rest = find p xs in if p x then some x else rest

  abbrev pub position : (A → Bool) → List A → Option ℕ
  position p [] = none
  position p (x ∷ xs) = let rest = position p xs in if p x then some 0 else advance rest

  -- An element that is changed in place.
  abbrev pub modify : ℕ → (A → A) → List A → List A
  modify i f [] = []
  modify zero f (x ∷ xs) = f x ∷ xs
  modify (suc i) f (x ∷ xs) = x ∷ modify i f xs

abbrev pub has_key : List ℕ → KnownPeer → Bool
has_key static_pubkey p = bytes_eq p.static_pubkey static_pubkey

abbrev pub has_id : PeerId → KnownPeer → Bool
has_id id p = p.id == id

unfoldable pub find_index : KnownPeerStore → List ℕ → Option ℕ
find_index store static_pubkey = position (has_key static_pubkey) store.peers

-- The new `last_seen_at_ms` of a known peer.
abbrev pub seen_again : ℕ → KnownPeer → KnownPeer
seen_again now_ms p = record {
  id = p.id;
  static_pubkey = p.static_pubkey;
  display_label = p.display_label;
  first_seen_at_ms = p.first_seen_at_ms;
  last_seen_at_ms = (if ltb p.last_seen_at_ms now_ms then now_ms else p.last_seen_at_ms);
}

-- `peers[i].id`, for an index in range.
abbrev pub id_at : List KnownPeer → ℕ → PeerId
id_at [] i = 0
id_at (p ∷ ps) zero = p.id
id_at (p ∷ ps) (suc i) = id_at ps i

abbrev pub upsert_at : KnownPeerStore → List ℕ → ℕ → Option ℕ → KnownPeerStore × PeerId
upsert_at store static_pubkey now_ms (some i) = (
  record { peers = (modify i (seen_again now_ms) store.peers); next_id = store.next_id },
  id_at store.peers i,
)
upsert_at store static_pubkey now_ms none = (
  record {
    peers =
        store.peers
        ++ (record {
          id = store.next_id;
          static_pubkey = static_pubkey;
          display_label = none;
          first_seen_at_ms = now_ms;
          last_seen_at_ms = now_ms;
        }
            ∷ []);
    next_id = ((store.next_id + 1) % 2 ^ 64);
  },
  store.next_id,
)

unfoldable pub upsert : KnownPeerStore → List ℕ → ℕ → KnownPeerStore × PeerId
unfolding find_index
upsert store static_pubkey now_ms =
    upsert_at store static_pubkey now_ms (find_index store static_pubkey)

unfoldable pub get : KnownPeerStore → PeerId → Option KnownPeer
get store id = find (has_id id) store.peers

unfoldable pub find_by_key : KnownPeerStore → List ℕ → Option KnownPeer
find_by_key store static_pubkey = find (has_key static_pubkey) store.peers

-- The loop, from `end`.
unfoldable pub walk_back : List ℕ → ℕ → ℕ
walk_back s zero = zero
walk_back s (suc end) =
    let before = walk_back s end in if is_char_boundary s (suc end) then suc end else before

unfoldable pub truncate_to_120_bytes : List ℕ → List ℕ
unfolding walk_back
truncate_to_120_bytes s = if leb (length s) 120 then s else take (walk_back s 120) s

abbrev pub labelled : List ℕ → KnownPeer → KnownPeer
labelled label p = record {
  id = p.id;
  static_pubkey = p.static_pubkey;
  display_label = (some label);
  first_seen_at_ms = p.first_seen_at_ms;
  last_seen_at_ms = p.last_seen_at_ms;
}

abbrev pub set_label_at : KnownPeerStore → List ℕ → Option ℕ → KnownPeerStore × Bool
set_label_at store label none = (store, false)
set_label_at store label (some i) = (
  record {
    peers = (modify i (labelled (truncate_to_120_bytes label)) store.peers);
    next_id = store.next_id;
  },
  true,
)

unfoldable pub set_label : KnownPeerStore → PeerId → List ℕ → KnownPeerStore × Bool
set_label store id label = set_label_at store label (position (has_id id) store.peers)
