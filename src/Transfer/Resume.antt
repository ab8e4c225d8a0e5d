-- ===== src/Transfer/Resume.antt =====
-- core/xfer/src/resume.rs and core/xfer/src/cache.rs: the progress of a transfer in a state file. The
-- file is its bytes, if it exists; the only error of a read is the end of the file, and a write
-- may come to a prefix of its bytes.
pub mod Replay
pub mod Recovery
pub mod Identity
pub mod Misread
pub mod Remaining
mod Tests
use lowband.Prelude.{
  ℕ, zero, suc, ◌+◌, ◌*◌, ◌%◌, ◌^◌, Bool, true, false, not, ◌&&◌, ◌||◌, Option, none, some, List,
  [], ◌∷◌, ◌++◌, length, take, drop, get_or, ltb, leb, ◌==◌, if◌then◌else◌, bytes_eq,
}
use lowband.Messaging.Bytes.{to_le_bytes, from_le_bytes, split_at_checked}

-- "LBXR"
abbrev pub magic : List ℕ
magic = 76 ∷ 66 ∷ 88 ∷ 82 ∷ []

abbrev pub version : ℕ
version = 1

abbrev pub progress_entry_len : ℕ
progress_entry_len = 4

abbrev pub ChunkHash : Type 0
ChunkHash = List ℕ

pub record TransferManifest : Type 0 where
  pub chunk_ids : List ChunkHash
  pub total_bytes : ℕ

abbrev pub chunk_count : TransferManifest → ℕ
chunk_count m = length m.chunk_ids

pub data OpenOutcome : Type 0 where
  fresh : OpenOutcome
  resumed : ℕ → OpenOutcome

-- The set of delivered indices is a list without repetition, in the order of insertion.
pub record ResumableTransfer : Type 0 where
  pub manifest : TransferManifest
  pub delivered : List ℕ
  pub file : List ℕ

abbrev pub contains : ℕ → List ℕ → Bool
contains i [] = false
contains i (j ∷ js) = (j == i) || contains i js

-- `HashSet::insert`
abbrev pub insert : ℕ → List ℕ → List ℕ
insert i set = if contains i set then set else set ++ (i ∷ [])

abbrev pub concat_ids : List ChunkHash → List ℕ
concat_ids [] = []
concat_ids (id ∷ ids) = id ++ concat_ids ids

abbrev pub header : TransferManifest → List ℕ
header m =
    magic
    ++ (version
        ∷ (to_le_bytes 4 (chunk_count m % 2 ^ 32) ++ to_le_bytes 8 (m.total_bytes % 2 ^ 64)))

-- The bytes of the file that `create` writes.
unfoldable pub create : TransferManifest → List ℕ
create m = header m ++ concat_ids m.chunk_ids

-- What `load` returns: `Ok(Some(..))`, `Ok(None)` or `Err(..)`.
pub data Loaded : Type 0 where
  loaded : List ℕ → Loaded
  nothing : Loaded
  unexpected_eof : Loaded

-- The loop over the progress entries; fewer than four bytes at the end are dropped.
unfoldable pub replay : ℕ → List ℕ → List ℕ → List ℕ
replay count delivered (a ∷ b ∷ c ∷ d ∷ rest) =
    let index = from_le_bytes (a ∷ b ∷ c ∷ d ∷ []) in
    replay count (if ltb index count then insert index delivered else delivered) rest
replay count delivered _ = delivered

-- One chunk id, and `more` behind it.
abbrev pub next_id : Option (List ℕ × List ℕ) → ChunkHash → (List ℕ → Loaded) → Loaded
next_id none expected more = unexpected_eof
next_id (some (id, tail)) expected more = if bytes_eq id expected then more tail else nothing

-- The loop over the chunk ids, and the progress behind them.
unfoldable pub load_ids : ℕ → List ChunkHash → List ℕ → Loaded
load_ids count [] rest = loaded (replay count [] rest)
load_ids count (expected ∷ ids) rest =
    next_id (split_at_checked 32 rest) expected (load_ids count ids)

unfoldable pub load_header : TransferManifest → List ℕ → List ℕ → Loaded
load_header m head rest =
    if not (bytes_eq (take 4 head) magic) || not (get_or head 4 0 == version)
    then nothing
    else if not (from_le_bytes (take 4 (drop 5 head)) == chunk_count m)
        || not (from_le_bytes (take 8 (drop 9 head)) == m.total_bytes)
    then nothing
    else load_ids (from_le_bytes (take 4 (drop 5 head))) m.chunk_ids rest

-- The first 17 bytes are there, or not.
unfoldable pub load_split : TransferManifest → Option (List ℕ × List ℕ) → Loaded
unfolding load_header
load_split m none = unexpected_eof
load_split m (some (head, rest)) = load_header m head rest

unfoldable pub load : Option (List ℕ) → TransferManifest → Loaded
unfolding load_split
load none m = nothing
load (some bytes) m = load_split m (split_at_checked 17 bytes)

-- `open` behind `load`; a file that is not resumed is written again.
abbrev pub open_loaded : List ℕ → TransferManifest → Loaded → ResumableTransfer × OpenOutcome
unfolding create
open_loaded bytes m (loaded delivered) =
    (record { manifest = m; delivered = delivered; file = bytes }, resumed (length delivered))
open_loaded bytes m nothing = (record { manifest = m; delivered = []; file = create m }, fresh)
open_loaded bytes m unexpected_eof =
    (record { manifest = m; delivered = []; file = create m }, fresh)

abbrev pub bytes_of : Option (List ℕ) → List ℕ
bytes_of none = []
bytes_of (some bytes) = bytes

unfoldable pub open_transfer : Option (List ℕ) → TransferManifest → ResumableTransfer × OpenOutcome
unfolding open_loaded
open_transfer file m = open_loaded (bytes_of file) m (load file m)

-- `written` bytes of the entry reach the file.
unfoldable pub mark_delivered : ResumableTransfer → ℕ → ℕ → ResumableTransfer
mark_delivered r index written =
    if leb (chunk_count r.manifest) index
    then r
    else if contains (index % 2 ^ 32) r.delivered
    then r
    else record {
      manifest = r.manifest;
      delivered = r.delivered ++ ((index % 2 ^ 32) ∷ []);
      file = r.file ++ take written (to_le_bytes 4 (index % 2 ^ 32));
    }

-- The indices below `n` that are not delivered, in order.
unfoldable pub remaining_below : ℕ → List ℕ → List ℕ
remaining_below zero delivered = []
remaining_below (suc n) delivered =
    let before = remaining_below n delivered in
    if contains (n % 2 ^ 32) delivered then before else before ++ (n ∷ [])

unfoldable pub remaining : ResumableTransfer → List ℕ
unfolding remaining_below
remaining r = remaining_below (chunk_count r.manifest) r.delivered

unfoldable pub is_complete : ResumableTransfer → Bool
is_complete r = length r.delivered == chunk_count r.manifest

unfoldable pub delivered_count : ResumableTransfer → ℕ
delivered_count r = length r.delivered

-- `manifest.chunk_ids[i]`; an index that remains is in range.
abbrev pub ids_at : List ChunkHash → List ℕ → List ChunkHash
ids_at ids [] = []
ids_at ids (i ∷ is) = get_or ids i [] ∷ ids_at ids is

unfoldable pub remaining_ids : ResumableTransfer → List ChunkHash
remaining_ids r = ids_at r.manifest.chunk_ids (remaining r)

-- The state file after `finish`, which is removed, or the error for chunks that are not delivered.
unfoldable pub finish_transfer : ResumableTransfer → Option (Option (List ℕ))
finish_transfer r = if not (is_complete r) then none else some none
