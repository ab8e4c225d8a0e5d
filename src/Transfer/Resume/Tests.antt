-- ===== src/Transfer/Resume/Tests.antt =====
-- core/xfer/src/resume.rs: runs of a transfer that is interrupted.
use lowband.Prelude.{
  ◌↔◌, ◌+◌, true, bytes_eq, false, ◌≡◌, refl, arith, none, some, [], ◌∷◌, ◌++◌, length, replicate,
}
use lowband.Messaging.Bytes.{to_le_bytes, from_le_bytes, split_at_checked}
use lowband.Transfer.Resume.{
  TransferManifest, fresh, resumed, ResumableTransfer, contains, create, replay, load_ids,
  load_header, load_split, load, open_loaded, open_transfer, mark_delivered, remaining,
  remaining_below, is_complete,
}
use lowband.Transfer.Resume.Replay.{IsManifest}
use lowband.Transfer.Resume.Recovery.{mark_all, open_transfer-mark_delivered}
use lowband.Transfer.Resume.{finish_transfer, remaining_ids, delivered_count}
use lowband.Transfer.Resume.Remaining.{finish_transfer-remaining}
use lowband.Transfer.Resume.Misread.{mark_delivered_torn}

abbrev three_chunks : TransferManifest
three_chunks = record {
  chunk_ids = replicate 32 1 ∷ replicate 32 2 ∷ replicate 32 3 ∷ [];
  total_bytes = 700;
}

three_chunks-IsManifest : IsManifest three_chunks
three_chunks-IsManifest = record {
  ids = (refl, (refl, (refl, tt)));
  count = omega arith;
  total = omega arith;
}

abbrev half_done : ResumableTransfer
half_done = mark_all (open_transfer none three_chunks).0 (2 ∷ 0 ∷ 2 ∷ 9 ∷ [])

remaining-half_done : (remaining half_done ≡ 1 ∷ []) × (is_complete half_done ≡ false)
unfolding remaining remaining_below is_complete open_transfer open_loaded load mark_delivered
remaining-half_done = (refl, refl)

-- A file of another manifest is written again.
open_transfer_other :
    (open_transfer (some half_done.file) (record { chunk_ids = []; total_bytes = 700 })).1 ≡ fresh
unfolding open_transfer open_loaded load load_split load_header mark_delivered create to_le_bytes
    from_le_bytes split_at_checked bytes_eq
open_transfer_other = refl

open_transfer-mark_delivered_example :
    let before = mark_all (open_transfer none three_chunks).0 (2 ∷ 0 ∷ 2 ∷ 9 ∷ []) in
    let crashed = mark_delivered before 1 3 in
    (open_transfer (some crashed.file) three_chunks ≡ (
      record { manifest = three_chunks; delivered = before.delivered; file = crashed.file },
      resumed (length before.delivered),
    ))
    × (contains 2 before.delivered ≡ true)
open_transfer-mark_delivered_example =
    open_transfer-mark_delivered three_chunks (2 ∷ 0 ∷ 2 ∷ 9 ∷ []) 1 3 2 three_chunks-IsManifest
      (omega arith) (omega arith)

resumed_one :
    (open_transfer (some (create three_chunks ++ (1 ∷ 0 ∷ 0 ∷ 0 ∷ []))) three_chunks).1 ≡ resumed 1
unfolding open_transfer open_loaded load load_split load_header load_ids replay create to_le_bytes
    from_le_bytes split_at_checked bytes_eq
resumed_one = refl

mark_delivered_torn_example :
    let (again, first) = open_transfer (some (create three_chunks ++ (1 ∷ []))) three_chunks in
    let marked = mark_delivered again 0 4 in
    (first ≡ resumed 0) × ((open_transfer (some marked.file) three_chunks).0.delivered ≡ 1 ∷ [])
mark_delivered_torn_example =
    mark_delivered_torn three_chunks 1 0 three_chunks-IsManifest (omega arith)

finish_transfer-remaining_example :
    let r = mark_all (open_transfer none three_chunks).0 (2 ∷ 0 ∷ 2 ∷ 9 ∷ []) in
    (length (remaining r) + length r.delivered ≡ 3)
    × ((finish_transfer r ≡ some none) ↔ (remaining r ≡ []))
finish_transfer-remaining_example =
    finish_transfer-remaining three_chunks (2 ∷ 0 ∷ 2 ∷ 9 ∷ []) three_chunks-IsManifest

remaining_ids-half_done :
    (remaining_ids half_done ≡ replicate 32 2 ∷ []) × (delivered_count half_done ≡ 2)
unfolding remaining_ids remaining remaining_below delivered_count open_transfer open_loaded load
    mark_delivered
remaining_ids-half_done = (refl, refl)
