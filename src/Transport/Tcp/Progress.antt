-- ===== src/Transport/Tcp/Progress.antt =====
-- core/lbtp/src/tcp_fallback.rs: every call of `push` ends, and what it completes is a datagram.
use lowband.Prelude.{
  ℕ, zero, suc, ◌+◌, ◌-◌, ◌*◌, ◌≤◌, ◌<◌, ◌≡◌, refl, arith, some, List, [], ◌∷◌, ◌++◌, length, take,
  drop, min, ltb, ◌==◌, if◌then◌else◌, Bool-cases, inl, inr, length-append, length-take,
  length-drop,
}
use lowband.Transport.Tcp.{
  tcp_max_datagram_bytes, from_be_bytes, ReassemblerState, header, body, TcpReassembler, write_at,
  Round, length_read, header_round, body_round, round_of, push_loop, push,
}

-- The indices of the code stay in bounds, and a body lacks a byte unless it is to have none.
abbrev pub IsValid : ReassemblerState → Type 0
IsValid (header buf filled) = (length buf ≡ 2) × (filled < 2)
IsValid (body expected buf) = (length buf ≤ expected - 1) × (expected ≤ tcp_max_datagram_bytes)

-- A body that is complete takes a round without a byte.
abbrev pub idle_rounds : ReassemblerState → ℕ
idle_rounds (header buf filled) = 0
idle_rounds (body expected buf) = if length buf == expected then 1 else 0

abbrev pub rounds_left : ReassemblerState → List ℕ → ℕ
rounds_left s rest = 2 * length rest + idle_rounds s

abbrev pub AllDatagrams : List (List ℕ) → Type 0
AllDatagrams [] = Unit {0}
AllDatagrams (d ∷ ds) = ((0 < length d) × (length d ≤ tcp_max_datagram_bytes)) × AllDatagrams ds

pub AllDatagrams-append :
    (xs ys : List (List ℕ)) → AllDatagrams xs → AllDatagrams ys → AllDatagrams (xs ++ ys)
AllDatagrams-append [] ys hx hy = hy
AllDatagrams-append (x ∷ xs) ys (h, hx) hy = (h, AllDatagrams-append xs ys hx hy)

pub length-write_at :
    (buf : List ℕ) (at : ℕ) (src : List ℕ)
    → at + length src ≤ length buf
    → length (write_at buf at src) ≡ length buf
length-write_at buf at src h = omega (
  arith,
  length-append (take at buf) (src ++ drop (at + length src) buf),
  length-append src (drop (at + length src) buf),
  length-take at buf,
  length-drop (at + length src) buf,
)

pub record Advanced (s : ReassemblerState) (rest : List ℕ) (round : Round) : Type 0 where
  pub valid : IsValid round.reassembler.state
  pub fewer : rounds_left round.reassembler.state round.rest < rounds_left s rest
  pub datagrams : AllDatagrams round.completed

length_read_state :
    (rejected len : ℕ)
    → IsValid (length_read rejected len).state × (idle_rounds (length_read rejected len).state ≤ 1)
unfolding length_read
length_read_state rejected len = elim (Bool-cases (ltb tcp_max_datagram_bytes len)) [
  | inl long ↦ rw long (omega arith)
  | inr short ↦ rw short (ground (arith, short))
]

header_round-Advanced :
    (rejected b : ℕ) (bs buf : List ℕ) (filled : ℕ)
    → IsValid (header buf filled)
    → Advanced (header buf filled) (b ∷ bs) (header_round rejected (b ∷ bs) buf filled)
unfolding header_round
header_round-Advanced rejected b bs buf filled (two, below) =
    let copy = min (2 - filled) (length (b ∷ bs)) in
    let taken = length-take copy (b ∷ bs) in
    let left = length-drop copy (b ∷ bs) in
    let kept : length (write_at buf filled (take copy (b ∷ bs))) ≡ 2 =
      omega (arith, length-write_at buf filled (take copy (b ∷ bs)) (omega (arith, taken))) in
    elim (Bool-cases (filled + copy == 2)) [
      | inl full ↦
          let len = from_be_bytes (write_at buf filled (take copy (b ∷ bs))) in
          let (valid, one) = length_read_state rejected len in
          rw full (record { valid = valid; fewer = (omega (arith, left, one)); datagrams = tt })
      | inr more ↦
          let one_less : filled + copy < 2 = ground (arith, more) in
          rw more
            (record { valid = (kept, one_less); fewer = (omega (arith, left)); datagrams = tt })
    ]

full_fewer :
    (have expected others left : ℕ)
    → have ≤ expected
    → left ≡ suc others - min (expected - have) (suc others)
    → 2 * left + 0 < 2 * suc others + (if have == expected then 1 else 0)
full_fewer have expected others left within e = elim (Bool-cases (have == expected)) [
  | inl same ↦ rw same (omega arith)
  | inr other ↦ rw other (ground (arith, other))
]

datagram_out :
    (expected : ℕ) (d : List ℕ)
    → length d ≡ expected
    → expected ≤ tcp_max_datagram_bytes
    → AllDatagrams (if ltb 0 expected then d ∷ [] else [])
datagram_out expected d e h = elim (Bool-cases (ltb 0 expected)) [
  | inl some_bytes ↦ rw some_bytes ((ground (arith, some_bytes, e), omega (arith, e)), tt)
  | inr empty ↦ rw empty tt
]

body_round-Advanced :
    (rejected b : ℕ) (bs : List ℕ) (expected : ℕ) (buf : List ℕ)
    → IsValid (body expected buf)
    → Advanced (body expected buf) (b ∷ bs) (body_round rejected (b ∷ bs) expected buf)
unfolding body_round
body_round-Advanced rejected b bs expected buf (within, short) =
    let copy = min (expected - length buf) (length (b ∷ bs)) in
    let taken = length-take copy (b ∷ bs) in
    let left = length-drop copy (b ∷ bs) in
    let grown : length (buf ++ take copy (b ∷ bs)) ≡ length buf + copy =
      omega (arith, length-append buf (take copy (b ∷ bs)), taken) in
    elim (Bool-cases (length (buf ++ take copy (b ∷ bs)) == expected)) [
      | inl full ↦
          let whole : length (buf ++ take copy (b ∷ bs)) ≡ expected = ground (arith, full) in
          rw full (record {
            valid = (refl, omega arith);
            fewer =
                (full_fewer (length buf) expected (length bs) (length (drop copy (b ∷ bs)))
                  (omega arith) left);
            datagrams = (datagram_out expected (buf ++ take copy (b ∷ bs)) whole short);
          })
      | inr more ↦
          let below : length (buf ++ take copy (b ∷ bs)) < expected = ground (arith, more, grown) in
          rw more (record {
            valid = (omega (arith, below), short);
            fewer = (rw more (omega (arith, left, below, grown)));
            datagrams = tt;
          })
    ]

pub round_of-Advanced :
    (s : ReassemblerState) (rejected b : ℕ) (bs : List ℕ)
    → IsValid s
    → Advanced s (b ∷ bs) (round_of s rejected (b ∷ bs))
unfolding round_of
round_of-Advanced (header buf filled) rejected b bs h =
    header_round-Advanced rejected b bs buf filled h
round_of-Advanced (body expected buf) rejected b bs h =
    body_round-Advanced rejected b bs expected buf h

push_loop-IsValid :
    (fuel : ℕ) (r : TcpReassembler) (rest : List ℕ) (completed : List (List ℕ))
    → rounds_left r.state rest < fuel
    → IsValid r.state
    → AllDatagrams completed
    → (r' : TcpReassembler) × (out : List (List ℕ)) × (push_loop fuel r rest completed
        ≡ some (r', out))
      × IsValid r'.state
      × AllDatagrams out
unfolding push_loop
push_loop-IsValid zero r rest completed room valid h = absurd (omega (arith, room))
push_loop-IsValid (suc fuel) r [] completed room valid h = (r, completed, refl, valid, h)
push_loop-IsValid (suc fuel) r (b ∷ bs) completed room valid h =
    let round = round_of r.state r.oversized_rejected (b ∷ bs) in
    let advanced = round_of-Advanced r.state r.oversized_rejected b bs valid in
    push_loop-IsValid fuel round.reassembler round.rest (completed ++ round.completed)
      (omega (arith, room, advanced.fewer)) advanced.valid
      (AllDatagrams-append completed round.completed h advanced.datagrams)

pub few : (s : ReassemblerState) (bytes : List ℕ) → rounds_left s bytes < 2 * length bytes + 2
few (header buf filled) bytes = omega arith
few (body expected buf) bytes = elim (Bool-cases (length buf == expected)) [
  | inl same ↦ rw same (omega arith)
  | inr other ↦ rw other (omega arith)
]

-- Whatever bytes come in, valid or not, `push` ends with the rounds it is given; every datagram that it
-- completes has 1 to 1200 bytes, and the reassembler is left in a state that `push` can go on from.
push-IsValid :
    (r : TcpReassembler) (bytes : List ℕ)
    → IsValid r.state
    → (r' : TcpReassembler) × (out : List (List ℕ)) × (push r bytes ≡ some (r', out))
      × IsValid r'.state
      × AllDatagrams out
unfolding push
push-IsValid r bytes valid =
    push_loop-IsValid (2 * length bytes + 2) r bytes [] (few r.state bytes) valid tt
