-- ===== src/Transport/Tcp/Stream.antt =====
-- core/lbtp/src/tcp_fallback.rs: one round of `push` on a stream of frames.
use lowband.Prelude.{
  ℕ, zero, suc, ◌+◌, ◌-◌, ◌*◌, ◌/◌, ◌%◌, ◌^◌, ◌≤◌, ◌<◌, ◌≡◌, refl, sym, ap, ◌∙◌, arith, true, false,
  List, [], ◌∷◌, ◌++◌, length, take, drop, min, ltb, ◌==◌, if◌then◌else◌, Bool-cases, inl, inr,
  append_assoc, take-append-drop,
}
use lowband.Transport.Tcp.{
  tcp_max_datagram_bytes, to_be_bytes, ReassemblerState, header, body, Round, length_read,
  header_round, body_round, round_of,
}
use lowband.Transport.Tcp.Progress.{IsValid}

abbrev pub frame : List ℕ → List ℕ
frame d = to_be_bytes (length d) ++ d

abbrev pub frames : List (List ℕ) → List ℕ
frames [] = []
frames (d ∷ ds) = frame d ++ frames ds

abbrev pub AllShort : List (List ℕ) → Type 0
AllShort [] = Unit {0}
AllShort (d ∷ ds) = (length d ≤ tcp_max_datagram_bytes) × AllShort ds

-- A frame without a body completes no datagram.
abbrev pub nonempty : List (List ℕ) → List (List ℕ)
nonempty [] = []
nonempty ([] ∷ ds) = nonempty ds
nonempty ((b ∷ bs) ∷ ds) = (b ∷ bs) ∷ nonempty ds

-- The bytes of the frame that is not complete yet.
abbrev pub pending : ReassemblerState → List ℕ
pending (header buf filled) = take filled buf
pending (body expected buf) = to_be_bytes expected ++ buf

-- The stream from the frame at hand on is that of `ds`.
pub record Carries (s : ReassemblerState) (ahead : List ℕ) (ds : List (List ℕ)) : Type 0 where
  pub stream : pending s ++ ahead ≡ frames ds
  pub short : AllShort ds

pub record Stepped (rejected : ℕ) (round : Round) (future : List ℕ) (ds : List (List ℕ))
    : Type 0 where
  pub later : List (List ℕ)
  pub carries : Carries round.reassembler.state (round.rest ++ future) later
  pub out : nonempty ds ≡ round.completed ++ nonempty later
  pub kept : round.reassembler.oversized_rejected ≡ rejected

-- The first frame of a stream that has two bytes.
pub record First (hi lo : ℕ) (tail : List ℕ) (ds : List (List ℕ)) : Type 0 where
  pub d : List ℕ
  pub others : List (List ℕ)
  pub is_first : ds ≡ d ∷ others
  pub bytes : (hi < 256) × (lo < 256)
  pub is_length : 256 * hi + lo ≡ length d
  pub tail_is : tail ≡ d ++ frames others
  pub short : length d ≤ tcp_max_datagram_bytes
  pub all_short : AllShort others

head_of : List ℕ → ℕ
head_of [] = 0
head_of (x ∷ xs) = x

tail_of : List ℕ → List ℕ
tail_of [] = []
tail_of (x ∷ xs) = xs

pub front_frame :
    (hi lo : ℕ) (tail : List ℕ) (ds : List (List ℕ))
    → hi ∷ lo ∷ tail ≡ frames ds
    → AllShort ds
    → First hi lo tail ds
unfolding head_of tail_of
front_frame hi lo tail [] e h = cc
front_frame hi lo tail (d ∷ ds) e (short, all_short) =
    let high : hi ≡ length d % 2 ^ 16 / 256 = ap head_of e in
    let low : lo ≡ length d % 256 = ap (λ l. head_of (tail_of l)) e in
    record {
      d = d;
      others = ds;
      is_first = refl;
      bytes = (omega (arith, high, short), omega (arith, low));
      is_length = (omega (arith, high, low, short));
      tail_is = (ap (λ l. tail_of (tail_of l)) e);
      short = short;
      all_short = all_short;
    }

same_prefix {ℓ} :
    {A : Type ℓ} (a c b d : List A) → length a ≡ length c → a ++ b ≡ c ++ d → (a ≡ c) × (b ≡ d)
same_prefix [] [] b d len e = (refl, e)
same_prefix [] (y ∷ c) b d len e = absurd (omega (arith, len))
same_prefix (x ∷ a) [] b d len e = absurd (omega (arith, len))
same_prefix (x ∷ a) (y ∷ c) b d len e =
    let rest : a ++ b ≡ c ++ d = cc in
    let heads : x ≡ y = cc in
    let (same, left) = same_prefix a c b d (omega (arith, len)) rest in (cc, left)

-- The prefix that was read makes the body that the next frame has.
prefix_read :
    (rejected hi lo : ℕ) (tail : List ℕ) (ds : List (List ℕ))
    → hi ∷ lo ∷ tail ≡ frames ds
    → AllShort ds
    → let r = length_read rejected (256 * hi + lo) in
      Carries r.state tail ds × (r.oversized_rejected ≡ rejected)
unfolding length_read
prefix_read rejected hi lo tail ds e h =
    let f = front_frame hi lo tail ds e h in
    let fits : ltb tcp_max_datagram_bytes (256 * hi + lo) ≡ false =
      ground (arith, f.is_length, f.short) in
    let high : (256 * hi + lo) % 2 ^ 16 / 256 ≡ hi = omega (arith, f.bytes) in
    let low : (256 * hi + lo) % 256 ≡ lo = omega (arith, f.bytes) in
    rw fits (record { stream = (rw (high, low) e); short = h }, refl)

header_round-Stepped :
    (rejected b : ℕ) (bs buf : List ℕ) (filled : ℕ) (future : List ℕ) (ds : List (List ℕ))
    → IsValid (header buf filled)
    → Carries (header buf filled) ((b ∷ bs) ++ future) ds
    → Stepped rejected (header_round rejected (b ∷ bs) buf filled) future ds
unfolding header_round
header_round-Stepped rejected b bs [] filled future ds valid c = absurd (omega (arith, valid))
header_round-Stepped rejected b bs (x ∷ []) filled future ds valid c = absurd (omega (arith, valid))
header_round-Stepped rejected b bs (x ∷ y ∷ z ∷ buf) filled future ds valid c =
    absurd (omega (arith, valid))
header_round-Stepped rejected b bs (x ∷ y ∷ []) (suc (suc filled)) future ds valid c =
    absurd (omega (arith, valid))
header_round-Stepped rejected b [] (x ∷ y ∷ []) zero future ds valid c = record {
  later = ds;
  carries = record { stream = c.stream; short = c.short };
  out = refl;
  kept = refl;
}
header_round-Stepped rejected b (b' ∷ bs) (x ∷ y ∷ []) zero future ds valid c =
    let two : min (2 - 0) (length (b ∷ b' ∷ bs)) ≡ 2 = omega arith in
    let (carries, kept) = prefix_read rejected b b' (bs ++ future) ds c.stream c.short in
    rw two (record { later = ds; carries = carries; out = refl; kept = kept })
header_round-Stepped rejected b bs (x ∷ y ∷ []) (suc zero) future ds valid c =
    let one : min (2 - 1) (length (b ∷ bs)) ≡ 1 = omega arith in
    let (carries, kept) = prefix_read rejected x b (bs ++ future) ds c.stream c.short in
    rw one (record { later = ds; carries = carries; out = refl; kept = kept })

moved :
    (n : ℕ) (buf rest future : List ℕ)
    → (buf ++ take n rest) ++ (drop n rest ++ future) ≡ buf ++ (rest ++ future)
moved n buf rest future =
    append_assoc buf (take n rest) (drop n rest ++ future)
    ∙ ap (λ l. buf ++ l)
        (sym (append_assoc (take n rest) (drop n rest) future)
          ∙ ap (λ l. l ++ future) (take-append-drop n rest))

nonempty_head :
    (expected : ℕ) (d : List ℕ) (ds : List (List ℕ))
    → expected ≡ length d
    → nonempty (d ∷ ds) ≡ (if ltb 0 expected then d ∷ [] else []) ++ nonempty ds
nonempty_head expected [] ds e =
    let zero_left : ltb 0 expected ≡ false = ground (arith, e) in rw zero_left refl
nonempty_head expected (b ∷ bs) ds e =
    let some_left : ltb 0 expected ≡ true = ground (arith, e) in rw some_left refl

body_round-Stepped :
    (rejected : ℕ) (rest : List ℕ) (expected : ℕ) (buf future : List ℕ) (ds : List (List ℕ))
    → IsValid (body expected buf)
    → Carries (body expected buf) (rest ++ future) ds
    → Stepped rejected (body_round rejected rest expected buf) future ds
unfolding body_round
body_round-Stepped rejected rest expected buf future ds valid c =
    let hi = expected % 2 ^ 16 / 256 in
    let lo = expected % 256 in
    let copy = min (expected - length buf) (length rest) in
    let buf' = buf ++ take copy rest in
    let joined = moved copy buf rest future in
    let f = front_frame hi lo (buf ++ (rest ++ future)) ds c.stream c.short in
    let measured : expected ≡ length f.d = omega (arith, f.is_length, valid) in
    elim (Bool-cases (length buf' == expected)) [
      | inl full ↦
          let whole : length buf' ≡ length f.d = ground (arith, full, measured) in
          let (same, left) =
            same_prefix buf' f.d (drop copy rest ++ future) (frames f.others) whole
              (joined ∙ f.tail_is) in
          rw full (record {
            later = f.others;
            carries = record { stream = left; short = f.all_short };
            out =
                (ap nonempty f.is_first
                  ∙ nonempty_head expected f.d f.others measured
                  ∙ ap (λ l. (if ltb 0 expected then l ∷ [] else []) ++ nonempty f.others)
                      (sym same));
            kept = refl;
          })
      | inr more ↦ rw more (record {
        later = ds;
        carries = record { stream = (ap (λ l. hi ∷ lo ∷ l) joined ∙ c.stream); short = c.short };
        out = refl;
        kept = refl;
      })
    ]

pub round_of-Stepped :
    (s : ReassemblerState) (rejected b : ℕ) (bs future : List ℕ) (ds : List (List ℕ))
    → IsValid s
    → Carries s ((b ∷ bs) ++ future) ds
    → Stepped rejected (round_of s rejected (b ∷ bs)) future ds
unfolding round_of
round_of-Stepped (header buf filled) rejected b bs future ds =
    header_round-Stepped rejected b bs buf filled future ds
round_of-Stepped (body expected buf) rejected b bs future ds =
    body_round-Stepped rejected (b ∷ bs) expected buf future ds
