-- ===== src/Transfer/Resume/Recovery.antt =====
-- core/xfer/src/resume.rs: what survives a restart.
use lowband.Prelude.{
  ℕ, zero, suc, ◌%◌, ◌^◌, ◌<◌, ◌≡◌, refl, sym, ap, ◌∙◌, arith, true, false, ◌||◌, none, some, List,
  [], ◌∷◌, ◌++◌, length, take, leb, ◌==◌, Bool-cases, inl, inr, append_assoc, append-nil,
  length-take,
}
use lowband.Messaging.Bytes.{to_le_bytes, length-to_le_bytes}
use lowband.Transfer.Resume.{
  TransferManifest, chunk_count, resumed, ResumableTransfer, contains, create, loaded, load,
  open_transfer, mark_delivered,
}
use lowband.Transfer.Resume.Replay.{
  flat, IsFresh, IsFresh-append, replay-flat, IsManifest, load_same,
}

-- The file holds the manifest and one entry for each delivered chunk.
pub record IsRecorded (m : TransferManifest) (r : ResumableTransfer) : Type 0 where
  pub same : r.manifest ≡ m
  pub file : r.file ≡ create m ++ flat r.delivered
  pub distinct : IsFresh (chunk_count m) [] r.delivered

pub open_transfer-IsRecorded : (m : TransferManifest) → IsRecorded m (open_transfer none m).0
unfolding open_transfer load
open_transfer-IsRecorded m = record {
  same = refl;
  file = (sym (append-nil (create m)));
  distinct = tt;
}

flat-append : (is : List ℕ) (i : ℕ) → flat (is ++ (i ∷ [])) ≡ flat is ++ to_le_bytes 4 i
flat-append [] i = append-nil (to_le_bytes 4 i)
flat-append (j ∷ is) i =
    ap (λ l. to_le_bytes 4 j ++ l) (flat-append is i)
    ∙ sym (append_assoc (to_le_bytes 4 j) (flat is) (to_le_bytes 4 i))

pub take_all {ℓ} : {A : Type ℓ} (n : ℕ) (xs : List A) → length xs ≡ n → take n xs ≡ xs
take_all zero [] e = refl
take_all zero (x ∷ xs) e = absurd (omega (arith, e))
take_all (suc n) [] e = refl
take_all (suc n) (x ∷ xs) e = rw (take_all n xs (omega (arith, e))) refl

mark_delivered-IsRecorded :
    (m : TransferManifest) (r : ResumableTransfer) (i : ℕ)
    → IsManifest m
    → IsRecorded m r
    → IsRecorded m (mark_delivered r i 4)
unfolding mark_delivered
mark_delivered-IsRecorded m r i small h = elim (Bool-cases (leb (chunk_count r.manifest) i)) [
  | inl above ↦ rw above h
  | inr below ↦ elim (Bool-cases (contains (i % 2 ^ 32) r.delivered)) [
    | inl known ↦ rw (below, known) h
    | inr new ↦
        let in_range : i % 2 ^ 32 < chunk_count m =
          ground (arith, below, ap chunk_count h.same, small.count) in
        let entry = take_all 4 (to_le_bytes 4 (i % 2 ^ 32)) (length-to_le_bytes 4 _) in
        rw (below, new)
          (record {
            same = h.same;
            file =
                (rw
                  (
                    entry,
                    flat-append r.delivered (i % 2 ^ 32),
                    sym (append_assoc (create m) (flat r.delivered) (to_le_bytes 4 (i % 2 ^ 32))),
                  )
                  (ap (λ l. l ++ to_le_bytes 4 (i % 2 ^ 32)) h.file));
            distinct =
                (IsFresh-append (chunk_count m) [] r.delivered (i % 2 ^ 32) h.distinct new
                  in_range);
          })
  ]
]

-- `mark_delivered` on each index, every entry written whole.
abbrev pub mark_all : ResumableTransfer → List ℕ → ResumableTransfer
mark_all r [] = r
mark_all r (i ∷ is) = mark_all (mark_delivered r i 4) is

pub mark_all-IsRecorded :
    (m : TransferManifest) (r : ResumableTransfer) (is : List ℕ)
    → IsManifest m
    → IsRecorded m r
    → IsRecorded m (mark_all r is)
mark_all-IsRecorded m r [] small h = h
mark_all-IsRecorded m r (i ∷ is) small h =
    mark_all-IsRecorded m (mark_delivered r i 4) is small (mark_delivered-IsRecorded m r i small h)

pub contains-append :
    (i j : ℕ) (set : List ℕ) → contains i (set ++ (j ∷ [])) ≡ (contains i set || (j == i))
contains-append i j [] = grind arith
contains-append i j (k ∷ set) = grind (arith, contains-append i j set)

known_before :
    (i j : ℕ) (set : List ℕ) → contains i set ≡ true → contains j set ≡ (contains j set || (i == j))
known_before i j set known = elim (Bool-cases (i == j)) [
  | inl same ↦
      let e : i ≡ j = ground (arith, same) in
      let also : contains j set ≡ true = rw e at known in grind arith
  | inr other ↦ grind arith
]

-- What one call adds to the set.
mark_delivered-contains :
    (r : ResumableTransfer) (i j written : ℕ)
    → chunk_count r.manifest < 2 ^ 32
    → j < chunk_count r.manifest
    → contains j (mark_delivered r i written).delivered ≡ (contains j r.delivered || (i == j))
unfolding mark_delivered
mark_delivered-contains r i j written small below =
    elim (Bool-cases (leb (chunk_count r.manifest) i)) [
      | inl above ↦
          let other : (i == j) ≡ false = ground (arith, above, below) in
          rw (above, other) (grind arith)
      | inr within ↦
          let kept : i % 2 ^ 32 ≡ i = ground (arith, within, small) in
          elim (Bool-cases (contains (i % 2 ^ 32) r.delivered)) [
            | inl known ↦ rw (within, known) (known_before i j r.delivered (rw kept at known))
            | inr new ↦ rw (within, new, kept) (contains-append j i r.delivered)
          ]
    ]

mark_delivered_manifest :
    (r : ResumableTransfer) (i written : ℕ) → (mark_delivered r i written).manifest ≡ r.manifest
unfolding mark_delivered
mark_delivered_manifest r i written = ground arith

mark_all-contains :
    (r : ResumableTransfer) (is : List ℕ) (j : ℕ)
    → chunk_count r.manifest < 2 ^ 32
    → j < chunk_count r.manifest
    → contains j (mark_all r is).delivered ≡ (contains j r.delivered || contains j is)
mark_all-contains r [] j small below = grind arith
mark_all-contains r (i ∷ is) j small below =
    let kept = ap chunk_count (mark_delivered_manifest r i 4) in
    grind (
      arith,
      mark_all-contains (mark_delivered r i 4) is j (omega (arith, kept)) (omega (arith, kept)),
      mark_delivered-contains r i j 4 small below,
    )

-- A write that was cut short leaves fewer than four bytes behind the entries, or none.
torn_write :
    (r : ResumableTransfer) (i written : ℕ)
    → written < 4
    → (torn : List ℕ) × ((mark_delivered r i written).file ≡ r.file ++ torn) × (length torn < 4)
unfolding mark_delivered
torn_write r i written h = elim (Bool-cases (leb (chunk_count r.manifest) i)) [
  | inl above ↦ ([], rw above (sym (append-nil r.file)), omega arith)
  | inr within ↦ elim (Bool-cases (contains (i % 2 ^ 32) r.delivered)) [
    | inl known ↦ ([], rw (within, known) (sym (append-nil r.file)), omega arith)
    | inr new ↦ (
      take written (to_le_bytes 4 (i % 2 ^ 32)),
      rw (within, new) refl,
      omega (arith, h, length-take written (to_le_bytes 4 (i % 2 ^ 32))),
    )
  ]
]

-- The result of `open` on the file that a run left behind.
resumes :
    (m : TransferManifest) (r : ResumableTransfer) (torn : List ℕ)
    → IsManifest m
    → IsRecorded m r
    → length torn < 4
    → load (some (r.file ++ torn)) m ≡ loaded r.delivered
resumes m r torn small h short =
    ap (λ l. load (some (l ++ torn)) m) h.file
    ∙ ap (λ l. load (some l) m) (append_assoc (create m) (flat r.delivered) torn)
    ∙ load_same m (flat r.delivered ++ torn) small
    ∙ ap loaded (replay-flat (chunk_count m) [] r.delivered torn small.count h.distinct short)

pub starts_empty :
    (m : TransferManifest)
    → ((open_transfer none m).0.delivered ≡ []) × ((open_transfer none m).0.manifest ≡ m)
unfolding open_transfer load
starts_empty m = (refl, refl)

-- A transfer is started, chunks are marked, and the last write is cut short by a crash, before its
-- first byte or in the middle of the entry. When the file is opened for the same manifest, the
-- transfer resumes with exactly the chunks that were marked before that write: the set holds the
-- index `j` of a chunk if and only if it was marked, and the outcome reports its size.
pub open_transfer-mark_delivered :
    (m : TransferManifest) (marked : List ℕ) (last written j : ℕ)
    → IsManifest m
    → written < 4
    → j < chunk_count m
    → let before = mark_all (open_transfer none m).0 marked in
      let crashed = mark_delivered before last written in
      (open_transfer (some crashed.file) m ≡ (
        record { manifest = m; delivered = before.delivered; file = crashed.file },
        resumed (length before.delivered),
      ))
      × (contains j before.delivered ≡ contains j marked)
unfolding open_transfer
open_transfer-mark_delivered m marked last written j small h below =
    let start = (open_transfer none m).0 in
    let before = mark_all start marked in
    let recorded = mark_all-IsRecorded m start marked small (open_transfer-IsRecorded m) in
    let (torn, left, short) = torn_write before last written h in
    let again : load (some (mark_delivered before last written).file) m ≡ loaded before.delivered =
      ap (λ l. load (some l) m) left ∙ resumes m before torn small recorded short in
    let (none_yet, same) = starts_empty m in
    let count = ap chunk_count same in
    (
      rw again refl,
      mark_all-contains start marked j (omega (arith, small.count, count))
            (omega (arith, below, count))
          ∙ ap (λ l. contains j l || contains j marked) none_yet,
    )
