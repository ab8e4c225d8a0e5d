-- ===== src/Transfer/Resume/Replay.antt =====
-- core/xfer/src/resume.rs: what `load` makes of a file that `create` and `mark_delivered` wrote.
use lowband.Prelude.{
  ℕ, zero, suc, ◌%◌, ◌^◌, ◌<◌, ◌≡◌, refl, sym, ap, ◌∙◌, arith, true, false, not, ◌||◌, some, List,
  [], ◌∷◌, ◌++◌, length, take, drop, ltb, ◌==◌, if◌then◌else◌, append_assoc, append-nil, bytes_eq,
  bytes_eq_self, length-append,
}
use lowband.Messaging.Bytes.{
  to_le_bytes, from_le_bytes, split_at_checked, length-to_le_bytes, split_at_checked-append,
  from_le_bytes-to_le_bytes,
}
use lowband.Transfer.Resume.{
  ChunkHash, TransferManifest, chunk_count, contains, insert, concat_ids, header, create, loaded,
  nothing, replay, load_ids, load_header, load_split, load,
}

abbrev pub flat : List ℕ → List ℕ
flat [] = []
flat (i ∷ is) = to_le_bytes 4 i ++ flat is

-- The indices of `is` are below `count`, and none is in `seen` or repeated.
abbrev pub IsFresh : ℕ → List ℕ → List ℕ → Type 0
IsFresh count seen [] = Unit {0}
IsFresh count seen (i ∷ is) =
    (contains i seen ≡ false) × (i < count) × IsFresh count (seen ++ (i ∷ [])) is

pub IsFresh-append :
    (count : ℕ) (seen is : List ℕ) (i : ℕ)
    → IsFresh count seen is
    → contains i (seen ++ is) ≡ false
    → i < count
    → IsFresh count seen (is ++ (i ∷ []))
IsFresh-append count seen [] i h new below = (rw (append-nil seen) at new, below, tt)
IsFresh-append count seen (j ∷ is) i (a, b, h) new below = (
  a,
  b,
  IsFresh-append count (seen ++ (j ∷ [])) is i h (rw (sym (append_assoc seen (j ∷ []) is)) at new)
      below,
)

replay-entry :
    (count i : ℕ) (seen p : List ℕ)
    → i < 2 ^ 32
    → replay count seen (to_le_bytes 4 i ++ p)
      ≡ replay count (if ltb i count then insert i seen else seen) p
unfolding replay to_le_bytes
replay-entry count i seen p h =
    ap (λ n. replay count (if ltb n count then insert n seen else seen) p)
      (from_le_bytes-to_le_bytes 4 i (omega arith))

replay_torn : (count : ℕ) (seen torn : List ℕ) → length torn < 4 → replay count seen torn ≡ seen
unfolding replay
replay_torn count seen [] h = refl
replay_torn count seen (a ∷ []) h = refl
replay_torn count seen (a ∷ b ∷ []) h = refl
replay_torn count seen (a ∷ b ∷ c ∷ []) h = refl
replay_torn count seen (a ∷ b ∷ c ∷ d ∷ torn) h = absurd (omega (arith, h))

-- The entries are replayed in order, and what is torn behind them is dropped.
pub replay-flat :
    (count : ℕ) (seen is torn : List ℕ)
    → count < 2 ^ 32
    → IsFresh count seen is
    → length torn < 4
    → replay count seen (flat is ++ torn) ≡ seen ++ is
replay-flat count seen [] torn small h short =
    replay_torn count seen torn short ∙ sym (append-nil seen)
replay-flat count seen (i ∷ is) torn small (new, below, h) short =
    let in_range : ltb i count ≡ true = ground (arith, below) in
    ap (replay count seen) (append_assoc (to_le_bytes 4 i) (flat is) torn)
    ∙ replay-entry count i seen (flat is ++ torn) (omega arith)
    ∙ rw (in_range, new)
        (replay-flat count (seen ++ (i ∷ [])) is torn small h short ∙ append_assoc seen (i ∷ []) is)

abbrev pub AllIds : List ChunkHash → Type 0
AllIds [] = Unit {0}
AllIds (id ∷ ids) = (length id ≡ 32) × AllIds ids

-- The numbers of the header fit their fields, and a chunk id has 32 bytes.
pub record IsManifest (m : TransferManifest) : Type 0 where
  pub ids : AllIds m.chunk_ids
  pub count : chunk_count m < 2 ^ 32
  pub total : m.total_bytes < 2 ^ 64

load_ids-concat_ids :
    (count : ℕ) (ids : List ChunkHash) (p : List ℕ)
    → AllIds ids
    → load_ids count ids (concat_ids ids ++ p) ≡ loaded (replay count [] p)
unfolding load_ids
load_ids-concat_ids count [] p h = refl
load_ids-concat_ids count (id ∷ ids) p (len, h) =
    let split : split_at_checked 32 (id ++ (concat_ids ids ++ p)) ≡ some (id, concat_ids ids ++ p) =
      rw len at (split_at_checked-append id (concat_ids ids ++ p)) in
    rw (append_assoc id (concat_ids ids) p, split, bytes_eq_self id)
      (load_ids-concat_ids count ids p h)

take_prefix {ℓ} : {A : Type ℓ} (n : ℕ) (a b : List A) → length a ≡ n → take n (a ++ b) ≡ a
take_prefix zero [] b e = refl
take_prefix zero (x ∷ a) b e = absurd (omega (arith, e))
take_prefix (suc n) [] b e = absurd (omega (arith, e))
take_prefix (suc n) (x ∷ a) b e = rw (take_prefix n a b (omega (arith, e))) refl

drop_prefix {ℓ} : {A : Type ℓ} (n : ℕ) (a b : List A) → length a ≡ n → drop n (a ++ b) ≡ b
drop_prefix zero [] b e = refl
drop_prefix zero (x ∷ a) b e = absurd (omega (arith, e))
drop_prefix (suc n) [] b e = absurd (omega (arith, e))
drop_prefix (suc n) (x ∷ a) b e = drop_prefix n a b (omega (arith, e))

-- The three fields of a header are read back as they were written.
pub load_header-header :
    (m m' : TransferManifest) (rest : List ℕ)
    → IsManifest m
    → load_header m' (header m) rest ≡ (
        if not (chunk_count m == chunk_count m') || not (m.total_bytes == m'.total_bytes)
        then nothing
        else load_ids (chunk_count m) m'.chunk_ids rest)
unfolding load_header bytes_eq
load_header-header m m' rest h =
    let count = to_le_bytes 4 (chunk_count m % 2 ^ 32) in
    let total = to_le_bytes 8 (m.total_bytes % 2 ^ 64) in
    let front : take 4 (count ++ total) ≡ count =
      take_prefix 4 count total (length-to_le_bytes 4 _) in
    let back : drop 4 (count ++ total) ≡ total =
      drop_prefix 4 count total (length-to_le_bytes 4 _) in
    let all : take 8 total ≡ total =
      rw append-nil at (take_prefix 8 total [] (length-to_le_bytes 8 _)) in
    let low : chunk_count m % 2 ^ 32 ≡ chunk_count m = omega (arith, h.count) in
    let high : m.total_bytes % 2 ^ 64 ≡ m.total_bytes = omega (arith, h.total) in
    let number : from_le_bytes count ≡ chunk_count m =
      from_le_bytes-to_le_bytes 4 (chunk_count m % 2 ^ 32) (omega arith) ∙ low in
    let sum : from_le_bytes total ≡ m.total_bytes =
      from_le_bytes-to_le_bytes 8 (m.total_bytes % 2 ^ 64) (omega arith) ∙ high in
    rw (front, back, all, number, sum) refl

pub load-create :
    (m m' : TransferManifest) (p : List ℕ)
    → IsManifest m
    → load (some (create m ++ p)) m' ≡ load_header m' (header m) (concat_ids m.chunk_ids ++ p)
unfolding load load_split create
load-create m m' p h =
    let size : length (header m) ≡ 17 = omega (
      arith,
      length-append (to_le_bytes 4 (chunk_count m % 2 ^ 32))
          (to_le_bytes 8 (m.total_bytes % 2 ^ 64)),
      length-to_le_bytes 4 (chunk_count m % 2 ^ 32),
      length-to_le_bytes 8 (m.total_bytes % 2 ^ 64),
    ) in
    let split : split_at_checked 17 (header m ++ (concat_ids m.chunk_ids ++ p))
        ≡ some (header m, concat_ids m.chunk_ids ++ p) =
      rw size at (split_at_checked-append (header m) (concat_ids m.chunk_ids ++ p)) in
    ap (λ l. load_split m' (split_at_checked 17 l))
      (append_assoc (header m) (concat_ids m.chunk_ids) p)
    ∙ ap (load_split m') split

-- The file of a manifest is loaded again, with the entries behind its header replayed.
pub load_same :
    (m : TransferManifest) (p : List ℕ)
    → IsManifest m
    → load (some (create m ++ p)) m ≡ loaded (replay (chunk_count m) [] p)
load_same m p h =
    let count : (chunk_count m == chunk_count m) ≡ true = ground arith in
    let total : (m.total_bytes == m.total_bytes) ≡ true = ground arith in
    load-create m m p h
    ∙ load_header-header m m (concat_ids m.chunk_ids ++ p) h
    ∙ rw (count, total) (load_ids-concat_ids (chunk_count m) m.chunk_ids p h.ids)
