-- ===== src/Transfer/Resume/Identity.antt =====
-- core/xfer/src/resume.rs: a transfer is not resumed into another object.
use lowband.Prelude.{
  ℕ, ◌≡◌, ◌≢◌, refl, sym, ap, ◌∙◌, arith, some, List, [], ◌∷◌, ◌++◌, length, ◌==◌, Bool-cases, inl,
  inr, append_assoc, bytes_eq, bytes_eq→eq,
}
use lowband.Messaging.Bytes.{split_at_checked, split_at_checked-append}
use lowband.Transfer.Resume.{
  ChunkHash, TransferManifest, chunk_count, fresh, resumed, concat_ids, create, Loaded, loaded,
  nothing, unexpected_eof, next_id, load_ids, load, open_loaded, open_transfer,
}
use lowband.Transfer.Resume.Replay.{AllIds, IsManifest, load-create, load_header-header}

nothing≢loaded : {d : List ℕ} → nothing ≢ loaded d
nothing≢loaded h = cc

-- Ids that are loaded are those that were written.
load_ids_same :
    (count : ℕ) (ids ids' : List ChunkHash) (p d : List ℕ)
    → AllIds ids
    → length ids ≡ length ids'
    → load_ids count ids' (concat_ids ids ++ p) ≡ loaded d
    → ids ≡ ids'
unfolding load_ids
load_ids_same count [] [] p d h len e = refl
load_ids_same count [] (id' ∷ ids') p d h len e = absurd (omega (arith, len))
load_ids_same count (id ∷ ids) [] p d h len e = absurd (omega (arith, len))
load_ids_same count (id ∷ ids) (id' ∷ ids') p d (size, h) len e =
    let split : split_at_checked 32 ((id ++ concat_ids ids) ++ p) ≡ some (id, concat_ids ids ++ p) =
      rw (append_assoc id (concat_ids ids) p)
        (rw size at (split_at_checked-append id (concat_ids ids ++ p))) in
    let read : next_id (some (id, concat_ids ids ++ p)) id' (load_ids count ids') ≡ loaded d =
      sym (ap (λ l. next_id l id' (load_ids count ids')) split) ∙ e in
    elim (Bool-cases (bytes_eq id id')) [
      | inl same ↦
          let first : id ≡ id' = bytes_eq→eq id id' same in
          let others = load_ids_same count ids ids' p d h (omega (arith, len)) (rw same at read) in
          cc
      | inr other ↦ absurd (nothing≢loaded (rw other at read))
    ]

same_manifest :
    {ids ids' : List ChunkHash} {t t' : ℕ}
    → ids ≡ ids'
    → t ≡ t'
    → ◌≡◌ {A = TransferManifest}
        (record { chunk_ids = ids; total_bytes = t })
        (record { chunk_ids = ids'; total_bytes = t' })
same_manifest a b = cc

load_same_manifest :
    (m m' : TransferManifest) (p d : List ℕ)
    → IsManifest m
    → load (some (create m ++ p)) m' ≡ loaded d
    → m ≡ m'
load_same_manifest m m' p d h e =
    let read =
      sym (load-create m m' p h ∙ load_header-header m m' (concat_ids m.chunk_ids ++ p) h) ∙ e in
    elim (Bool-cases (chunk_count m == chunk_count m')) [
      | inl count ↦ elim (Bool-cases (m.total_bytes == m'.total_bytes)) [
        | inl total ↦
            same_manifest
              (load_ids_same (chunk_count m) m.chunk_ids m'.chunk_ids p d h.ids
                (ground (arith, count)) (rw (count, total) at read))
              (ground (arith, total))
        | inr total ↦ absurd (nothing≢loaded (rw (count, total) at read))
      ]
      | inr count ↦ absurd (nothing≢loaded (rw count at read))
    ]

fresh≢resumed : {n : ℕ} → fresh ≢ resumed n
fresh≢resumed h = cc

open_loaded-resumed :
    (bytes : List ℕ) (m : TransferManifest) (n : ℕ) (l : Loaded)
    → (open_loaded bytes m l).1 ≡ resumed n
    → (d : List ℕ) × (l ≡ loaded d)
unfolding open_loaded
open_loaded-resumed bytes m n (loaded d) e = (d, refl)
open_loaded-resumed bytes m n nothing e = absurd (fresh≢resumed e)
open_loaded-resumed bytes m n unexpected_eof e = absurd (fresh≢resumed e)

-- Whatever progress stands behind it, a state file that was created for one manifest is resumed only
-- for the same manifest: the same chunk ids in the same order, and the same total.
open_transfer_same :
    (m m' : TransferManifest) (progress : List ℕ) (n : ℕ)
    → IsManifest m
    → (open_transfer (some (create m ++ progress)) m').1 ≡ resumed n
    → m ≡ m'
unfolding open_transfer
open_transfer_same m m' progress n h e =
    let (d, read) =
      open_loaded-resumed (create m ++ progress) m' n (load (some (create m ++ progress)) m') e in
    load_same_manifest m m' progress d h read
