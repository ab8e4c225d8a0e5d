-- ===== src/Messaging/SessionRecords.antt =====
-- core/messaging/src/session_records.rs: the store of session records. A key is its bytes, a time is a
-- `u64`.
pub mod History
pub mod Observer
mod Tests
use lowband.Prelude.{
  ℕ, zero, suc, Bool, true, false, Option, none, some, List, [], ◌∷◌, ◌++◌, get_elem?, ltb, ◌==◌,
  if◌then◌else◌,
}

pub data Tier : Type 0 where
  survival constrained comfortable full : Tier

-- The declaration order, by which the derived `Ord` compares.
abbrev pub tier_rank : Tier → ℕ
tier_rank survival = 0
tier_rank constrained = 1
tier_rank comfortable = 2
tier_rank full = 3

pub record SessionRecord : Type 0 where
  pub connection_id : ℕ
  pub peer_key : Option (List ℕ)
  pub started_at_ms : ℕ
  pub ended_at_ms : Option ℕ
  pub peak_tier : Option Tier
  pub total_bytes : ℕ

pub record SessionRecordStore : Type 0 where
  pub records : List SessionRecord

unfoldable pub new : SessionRecordStore
new = record { records = [] }

abbrev advance : Option ℕ → Option ℕ
advance none = none
advance (some i) = some (suc i)

-- `iter().position(..)` by the connection.
position : ℕ → List SessionRecord → Option ℕ
position connection_id [] = none
position connection_id (r ∷ rs) =
    let rest = position connection_id rs in
    if r.connection_id == connection_id then some 0 else advance rest

find_index : SessionRecordStore → ℕ → Option ℕ
find_index store connection_id = position connection_id store.records

-- `records[i]`, changed in place.
modify : ℕ → (SessionRecord → SessionRecord) → List SessionRecord → List SessionRecord
modify i f [] = []
modify zero f (r ∷ rs) = f r ∷ rs
modify (suc i) f (r ∷ rs) = r ∷ modify i f rs

abbrev pub opened : ℕ → Option (List ℕ) → ℕ → SessionRecord
opened connection_id peer_key started_at_ms = record {
  connection_id = connection_id;
  peer_key = peer_key;
  started_at_ms = started_at_ms;
  ended_at_ms = none;
  peak_tier = none;
  total_bytes = 0;
}

abbrev open_at : Option ℕ → SessionRecordStore → SessionRecord → SessionRecordStore
open_at none store r = record { records = store.records ++ (r ∷ []) }
open_at (some i) store r = store

pub open_session : SessionRecordStore → ℕ → Option (List ℕ) → ℕ → SessionRecordStore
open_session store connection_id peer_key started_at_ms =
    open_at (find_index store connection_id) store (opened connection_id peer_key started_at_ms)

-- A record that is there is changed, with `true`.
abbrev update_at :
    Option ℕ → SessionRecordStore → (SessionRecord → SessionRecord) → SessionRecordStore × Bool
update_at none store f = (store, false)
update_at (some i) store f = (record { records = modify i f store.records }, true)

abbrev pub closed : ℕ → SessionRecord → SessionRecord
closed ended_at_ms r = record r { ended_at_ms = some ended_at_ms }

abbrev pub counted : ℕ → SessionRecord → SessionRecord
counted total_bytes r = record r { total_bytes = total_bytes }

abbrev should_advance : Option Tier → Tier → Bool
should_advance none tier = true
should_advance (some current) tier = ltb (tier_rank current) (tier_rank tier)

abbrev pub peaked : Tier → SessionRecord → SessionRecord
peaked tier r = record r {
  peak_tier = (if should_advance r.peak_tier tier then some tier else r.peak_tier);
}

pub close : SessionRecordStore → ℕ → ℕ → SessionRecordStore × Bool
close store connection_id ended_at_ms =
    update_at (find_index store connection_id) store (closed ended_at_ms)

pub update_bytes : SessionRecordStore → ℕ → ℕ → SessionRecordStore × Bool
update_bytes store connection_id total_bytes =
    update_at (find_index store connection_id) store (counted total_bytes)

pub update_peak_tier : SessionRecordStore → ℕ → Tier → SessionRecordStore × Bool
update_peak_tier store connection_id tier =
    update_at (find_index store connection_id) store (peaked tier)

abbrev get_at : Option ℕ → List SessionRecord → Option SessionRecord
get_at none rs = none
get_at (some i) rs = get_elem? rs i

pub get : SessionRecordStore → ℕ → Option SessionRecord
get store connection_id = get_at (find_index store connection_id) store.records
