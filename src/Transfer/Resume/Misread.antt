-- ===== src/Transfer/Resume/Misread.antt =====
-- core/xfer/src/resume.rs: entries that are written behind a torn one.
use lowband.Prelude.{
  ℕ, ◌+◌, ◌*◌, ◌/◌, ◌%◌, ◌^◌, ◌<◌, ◌≡◌, refl, ap, ◌∙◌, arith, true, false, some, List, [], ◌∷◌,
  ◌++◌, length, ltb, leb, append_assoc,
}
use lowband.Messaging.Bytes.{to_le_bytes, from_le_bytes, length-to_le_bytes}
use lowband.Transfer.Resume.{
  TransferManifest, chunk_count, resumed, create, loaded, replay, load, open_transfer,
  mark_delivered,
}
use lowband.Transfer.Resume.Recovery.{take_all}
use lowband.Transfer.Resume.Replay.{IsManifest, load_same}

replay_one : (count t : ℕ) → replay count [] (t ∷ []) ≡ []
unfolding replay
replay_one count t = refl

replay_shifted :
    (count t i : ℕ)
    → t + 256 * i < count
    → count < 2 ^ 32
    → replay count [] (t ∷ to_le_bytes 4 i) ≡ (t + 256 * i) ∷ []
unfolding replay to_le_bytes from_le_bytes
replay_shifted count t i h small =
    let index : t + 256 * (i % 256 + 256 * (i / 256 % 256 + 256 * (i / 256 / 256 % 256 + 256 * 0)))
        ≡ t + 256 * i =
      omega (arith, h, small) in
    let below : ltb (t + 256 * i) count ≡ true = ground (arith, h) in rw (index, below) refl

opened :
    (m : TransferManifest) (bytes d : List ℕ)
    → load (some bytes) m ≡ loaded d
    → open_transfer (some bytes) m
      ≡ (record { manifest = m; delivered = d; file = bytes }, resumed (length d))
unfolding open_transfer
opened m bytes d e = rw e refl

marked_file :
    (m : TransferManifest) (bytes : List ℕ) (i : ℕ)
    → i < chunk_count m
    → chunk_count m < 2 ^ 32
    → (mark_delivered (record { manifest = m; delivered = []; file = bytes }) i 4).file
      ≡ bytes ++ to_le_bytes 4 i
unfolding mark_delivered
marked_file m bytes i below small =
    let within : leb (chunk_count m) i ≡ false = ground (arith, below) in
    let kept : i % 2 ^ 32 ≡ i = omega (arith, below, small) in
    rw (within, kept) (ap (λ l. bytes ++ l) (take_all 4 (to_le_bytes 4 i) (length-to_le_bytes 4 i)))

-- A crash left one byte `t` of an entry. The transfer resumes with nothing delivered and chunk `i` is
-- marked, with its entry written whole. After the next restart the chunk that counts as delivered is
-- `t + 256 i`, which was never marked unless it is `i`, if the transfer has so many chunks.
pub mark_delivered_torn :
    (m : TransferManifest) (t i : ℕ)
    → IsManifest m
    → t + 256 * i < chunk_count m
    → let (again, first) = open_transfer (some (create m ++ (t ∷ []))) m in
      let marked = mark_delivered again i 4 in
      (first ≡ resumed 0) × ((open_transfer (some marked.file) m).0.delivered ≡ (t + 256 * i) ∷ [])
mark_delivered_torn m t i h below =
    let torn = create m ++ (t ∷ []) in
    let count = chunk_count m in
    let first = opened m torn [] (load_same m (t ∷ []) h ∙ ap loaded (replay_one count t)) in
    let file =
      ap (λ o. (mark_delivered o.0 i 4).file) first
      ∙ marked_file m torn i (omega (arith, below)) h.count
      ∙ append_assoc (create m) (t ∷ []) (to_le_bytes 4 i) in
    let entries = t ∷ to_le_bytes 4 i in
    let again =
      opened m (create m ++ entries) ((t + 256 * i) ∷ [])
        (load_same m entries h ∙ ap loaded (replay_shifted count t i below h.count)) in
    (
      ap (λ o. o.1) first,
      ap (λ l. (open_transfer (some l) m).0.delivered) file ∙ ap (λ o. o.0.delivered) again,
    )
