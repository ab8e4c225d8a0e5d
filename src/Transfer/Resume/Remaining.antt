-- ===== src/Transfer/Resume/Remaining.antt =====
-- core/xfer/src/resume.rs: what is left to deliver.
use lowband.Prelude.{
  ℕ, zero, suc, ◌+◌, ◌%◌, ◌^◌, ◌<◌, ◌≡◌, ◌↔◌, refl, ap, arith, false, none, some, List, [], ◌∷◌,
  ◌++◌, length, ltb, ◌==◌, if◌then◌else◌, Bool-cases, inl, inr, length-append,
}
use lowband.Transfer.Resume.{
  TransferManifest, chunk_count, ResumableTransfer, contains, open_transfer, remaining_below,
  remaining, is_complete, finish_transfer,
}
use lowband.Transfer.Resume.Replay.{IsFresh, IsManifest}
use lowband.Transfer.Resume.Recovery.{
  IsRecorded, mark_all, mark_all-IsRecorded, open_transfer-IsRecorded, contains-append,
}

abbrev occurs : ℕ → List ℕ → ℕ
occurs n [] = 0
occurs n (j ∷ js) = (if j == n then 1 else 0) + occurs n js

abbrev count_below : ℕ → List ℕ → ℕ
count_below n [] = 0
count_below n (j ∷ js) = (if ltb j n then 1 else 0) + count_below n js

-- An index occurs once in a list without repetition that contains it.
occurs-contains :
    (count n : ℕ) (seen js : List ℕ)
    → IsFresh count seen js
    → occurs n js ≡ (if contains n seen then 0 else if contains n js then 1 else 0)
occurs-contains count n seen [] h = ground arith
occurs-contains count n seen (j ∷ js) (new, below, h) =
    let rest = occurs-contains count n (seen ++ (j ∷ [])) js h in
    let more = contains-append n j seen in
    elim (Bool-cases (j == n)) [
      | inl same ↦
          let e : j ≡ n = ground (arith, same) in
          let unseen : contains n seen ≡ false = rw e at new in
          ground (arith, rest, more, same, unseen)
      | inr other ↦ ground (arith, rest, more, other)
    ]

count_below-suc : (n : ℕ) (js : List ℕ) → count_below (suc n) js ≡ count_below n js + occurs n js
count_below-suc n [] = refl
count_below-suc n (j ∷ js) = ground (arith, count_below-suc n js)

count_below-zero : (js : List ℕ) → count_below 0 js ≡ 0
count_below-zero [] = refl
count_below-zero (j ∷ js) = ground (arith, count_below-zero js)

count_below_all :
    (count : ℕ) (seen js : List ℕ) → IsFresh count seen js → count_below count js ≡ length js
count_below_all count seen [] h = refl
count_below_all count seen (j ∷ js) (new, below, h) =
    ground (arith, below, count_below_all count (seen ++ (j ∷ [])) js h)

length-remaining_below :
    (count n : ℕ) (js : List ℕ)
    → IsFresh count [] js
    → n < 2 ^ 32
    → length (remaining_below n js) + count_below n js ≡ n
unfolding remaining_below
length-remaining_below count zero js h small = omega (arith, count_below-zero js)
length-remaining_below count (suc n) js h small =
    let before = length-remaining_below count n js h (omega (arith, small)) in
    let step = count_below-suc n js in
    let once = occurs-contains count n [] js h in
    let kept : n % 2 ^ 32 ≡ n = omega (arith, small) in
    let one_more = length-append (remaining_below n js) (n ∷ []) in
    elim (Bool-cases (contains n js)) [
      | inl known ↦
          let here : occurs n js ≡ 1 = rw known at once in
          rw (kept, known) (omega (arith, before, step, here))
      | inr unknown ↦
          let nowhere : occurs n js ≡ 0 = rw unknown at once in
          rw (kept, unknown) (omega (arith, before, step, nowhere, one_more))
    ]

empty_iff : (xs : List ℕ) → (length xs ≡ 0) ↔ (xs ≡ [])
empty_iff [] = (λ e. refl, λ e. refl)
empty_iff (x ∷ xs) = (λ e. absurd (omega (arith, e)), λ e. absurd cc)

IsRecorded-remaining :
    (m : TransferManifest) (r : ResumableTransfer)
    → IsManifest m
    → IsRecorded m r
    → length (remaining r) + length r.delivered ≡ chunk_count m
unfolding remaining
IsRecorded-remaining m r small h =
    let count = ap chunk_count h.same in
    let total =
      length-remaining_below (chunk_count m) (chunk_count r.manifest) r.delivered h.distinct
        (omega (arith, count, small.count)) in
    let all = count_below_all (chunk_count m) [] r.delivered h.distinct in
    let same = ap (λ n. count_below n r.delivered) count in omega (arith, total, all, same, count)

-- After a start and any chunks that were marked, in any order, again or out of range: the chunks that
-- remain and those delivered add up to the chunks of the manifest, and `finish` takes the transfer for
-- complete, and removes its file, if and only if no chunk remains.
pub finish_transfer-remaining :
    (m : TransferManifest) (marked : List ℕ)
    → IsManifest m
    → let r = mark_all (open_transfer none m).0 marked in
      (length (remaining r) + length r.delivered ≡ chunk_count m)
      × ((finish_transfer r ≡ some none) ↔ (remaining r ≡ []))
unfolding finish_transfer is_complete
finish_transfer-remaining m marked small =
    let r = mark_all (open_transfer none m).0 marked in
    let h =
      mark_all-IsRecorded m (open_transfer none m).0 marked small (open_transfer-IsRecorded m) in
    let sum = IsRecorded-remaining m r small h in
    let count = ap chunk_count h.same in
    elim (Bool-cases (length r.delivered == chunk_count r.manifest)) [
      | inl full ↦
          let nothing_left : length (remaining r) ≡ 0 = ground (arith, full, sum, count) in
          (sum, rw full (λ e. (empty_iff (remaining r)).0 nothing_left, λ e. refl))
      | inr short ↦ (
        sum,
        rw short (
          λ e. absurd cc,
          λ e.
              let nothing_left = (empty_iff (remaining r)).1 e in
              absurd (ground (arith, short, sum, count, nothing_left)),
        ),
      )
    ]
