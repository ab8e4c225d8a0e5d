-- ===== src/Platform/Ipc/Stream/Frames.antt =====
-- core/platform/src/ipc.rs: a frame at the front of a stream, and a stream that ends inside of one.
use lowband.Prelude.{
  ℕ, suc, ◌^◌, ◌<◌, ◌≡◌, ◌≢◌, ◌⊎◌, refl, arith, List, [], ◌∷◌, ◌++◌, length, Option-cases, inl, inr,
  length-append, append_assoc, ap, sym, ◌∙◌,
}
use lowband.Messaging.Bytes.{
  to_le_bytes, from_le_bytes, split_at_checked, split_at_checked-append, split_at_checked-some,
  length-to_le_bytes, from_le_bytes-to_le_bytes,
}
use lowband.Platform.Ipc.Stream.{ok, err, ReadError, Result, read_body, read_frame}

-- A frame at the front of the stream is read, whatever follows it.
pub read_frame-append :
    (kind : ℕ) (fb rest : List ℕ)
    → length fb < 2 ^ 31
    → read_frame (to_le_bytes 4 (length (kind ∷ fb)) ++ ((kind ∷ fb) ++ rest))
      ≡ ok (kind ∷ fb, rest)
unfolding read_frame read_body
read_frame-append kind fb rest small =
    let body = kind ∷ fb in
    let e = split_at_checked-append (to_le_bytes 4 (length body)) (body ++ rest) in
    let four = rw (length-to_le_bytes 4 (length body)) at e in
    let f = from_le_bytes-to_le_bytes 4 (length body) (omega arith) in
    let g = split_at_checked-append body rest in ground (arith, four, f, g)

-- The bytes of a frame that the stream ends in: no whole frame.
abbrev pub IsCut : List ℕ → Type 0
IsCut tail = (e : ReadError) × (read_frame tail ≡ err e)

Result-cases :
    (r : Result (List ℕ × List ℕ))
    → ((e : ReadError) × (r ≡ err e)) ⊎ ((body rest : List ℕ) × (r ≡ ok (body, rest)))
Result-cases (err e) = inl (e, refl)
Result-cases (ok (body, rest)) = inr (body, rest, refl)

-- What is read of a frame, and what it was read from.
pub read_frame-ok :
    (stream body rest : List ℕ)
    → read_frame stream ≡ ok (body, rest)
    → (four : List ℕ) × (stream ≡ four ++ (body ++ rest))
      × (length four ≡ 4)
      × (length body ≡ from_le_bytes four)
unfolding read_frame read_body
read_frame-ok stream body rest h = elim (Option-cases (split_at_checked 4 stream)) [
  | inl short ↦ ground (arith, short)
  | inr ((four, behind), split) ↦
      let (joined, measured) = split_at_checked-some 4 stream four behind split in
      elim (Option-cases (split_at_checked (from_le_bytes four) behind)) [
        | inl short ↦ ground (arith, split, short)
        | inr ((b, r), split') ↦
            let (joined', measured') =
              split_at_checked-some (from_le_bytes four) behind b r split' in
            let same : ◌≡◌ {A = Result (List ℕ × List ℕ)} (ok (b, r)) (ok (body, rest)) =
              ground (arith, split, split') in
            (four, ground (arith, joined, joined', same), measured, ground (arith, measured', same))
      ]
]

nil_of_length : (l : List ℕ) → length l ≡ 0 → l ≡ []
nil_of_length [] h = refl
nil_of_length (x ∷ l) h = absurd (omega (arith, h))

pub read_frame-cases :
    (stream : List ℕ)
    → IsCut stream ⊎ ((body rest : List ℕ) × (read_frame stream ≡ ok (body, rest)))
read_frame-cases stream = Result-cases (read_frame stream)

-- Streams with the same four bytes in front have the same rest.
same_front :
    (xs ys a b : List ℕ) → length xs ≡ 4 → length ys ≡ 4 → xs ++ a ≡ ys ++ b → (xs ≡ ys) × (a ≡ b)
same_front xs ys a b hx hy e =
    let p = rw hx at (split_at_checked-append xs a) in
    let q = rw hy at (split_at_checked-append ys b) in ground (arith, p, q, e)

-- A proper prefix of a frame is no whole frame.
pub IsCut-prefix :
    (kind : ℕ) (fb tail more : List ℕ)
    → length fb < 2 ^ 31
    → tail ++ more ≡ to_le_bytes 4 (length (kind ∷ fb)) ++ (kind ∷ fb)
    → more ≢ []
    → IsCut tail
IsCut-prefix kind fb tail more small e some_byte = elim (read_frame-cases tail) [
  | inl cut ↦ cut
  | inr (body, rest, h) ↦
      let (four, joined, measured, body_length) = read_frame-ok tail body rest h in
      let header = to_le_bytes 4 (length (kind ∷ fb)) in
      let e' : four ++ ((body ++ rest) ++ more) ≡ header ++ (kind ∷ fb) =
        sym (append_assoc four (body ++ rest) more)
        ∙ (ap (λ (l : List ℕ). l ++ more) (sym joined) ∙ e) in
      let (same, behind) =
        same_front four header ((body ++ rest) ++ more) (kind ∷ fb) measured
          (length-to_le_bytes 4 (length (kind ∷ fb))) e' in
      let f = from_le_bytes-to_le_bytes 4 (length (kind ∷ fb)) (omega arith) in
      let whole : length body ≡ suc (length fb) = body_length ∙ (ap from_le_bytes same ∙ f) in
      let total = ap length behind in
      absurd (
        some_byte (
          nil_of_length more (
            omega
              (arith, total, whole, length-append (body ++ rest) more, length-append body rest))))
]
