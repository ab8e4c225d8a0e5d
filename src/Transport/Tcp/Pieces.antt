-- ===== src/Transport/Tcp/Pieces.antt =====
-- core/lbtp/src/tcp_fallback.rs: the calls of `push` on the pieces of a stream.
use mathlib.Core.Option
use lowband.Prelude.{
  ℕ, zero, suc, ◌+◌, ◌*◌, ◌/◌, ◌%◌, ◌^◌, ◌<◌, ◌≡◌, ◌≢◌, Option-cases, refl, sym, ap, ◌∙◌, arith,
  Option, none, some, List, [], ◌∷◌, ◌++◌, length, take, ltb, Bool-cases, inl, inr, length-append,
  length-take, append_assoc, append-nil,
}
use lowband.Transport.Tcp.{
  tcp_max_datagram_bytes, encode, ReassemblerState, header, body, TcpReassembler, round_of,
  push_loop, push, new,
}
use lowband.Transport.Tcp.Progress.{IsValid, rounds_left, round_of-Advanced, few}
use lowband.Transport.Tcp.Stream.{
  frames, AllShort, nonempty, Carries, front_frame, round_of-Stepped,
}

-- What one call comes to: the datagrams out, and those that the stream still carries.
record Pushed (r : TcpReassembler) (completed : List (List ℕ))
    (result : Option (TcpReassembler × List (List ℕ))) (future : List ℕ) (ds : List (List ℕ))
    : Type 0 where
  r' : TcpReassembler
  more : List (List ℕ)
  later : List (List ℕ)
  ended : result ≡ some (r', completed ++ more)
  valid : IsValid r'.state
  carries : Carries r'.state future later
  out : nonempty ds ≡ more ++ nonempty later
  kept : r'.oversized_rejected ≡ r.oversized_rejected

push_loop-Pushed :
    (fuel : ℕ) (r : TcpReassembler) (rest : List ℕ) (completed : List (List ℕ)) (future : List ℕ)
    (ds : List (List ℕ))
    → rounds_left r.state rest < fuel
    → IsValid r.state
    → Carries r.state (rest ++ future) ds
    → Pushed r completed (push_loop fuel r rest completed) future ds
unfolding push_loop
push_loop-Pushed zero r rest completed future ds room valid c = absurd (omega (arith, room))
push_loop-Pushed (suc fuel) r [] completed future ds room valid c = record {
  r' = r;
  more = [];
  later = ds;
  ended = (ap (λ l. some (r, l)) (sym (append-nil completed)));
  valid = valid;
  carries = c;
  out = refl;
  kept = refl;
}
push_loop-Pushed (suc fuel) r (b ∷ bs) completed future ds room valid c =
    let round = round_of r.state r.oversized_rejected (b ∷ bs) in
    let advanced = round_of-Advanced r.state r.oversized_rejected b bs valid in
    let stepped = round_of-Stepped r.state r.oversized_rejected b bs future ds valid c in
    let p =
      push_loop-Pushed fuel round.reassembler round.rest (completed ++ round.completed) future
        stepped.later (omega (arith, room, advanced.fewer)) advanced.valid stepped.carries in
    record {
      r' = p.r';
      more = round.completed ++ p.more;
      later = p.later;
      ended = (p.ended ∙ ap (λ l. some (p.r', l)) (append_assoc completed round.completed p.more));
      valid = p.valid;
      carries = p.carries;
      out =
          (stepped.out
            ∙ ap (λ l. round.completed ++ l) p.out
            ∙ sym (append_assoc round.completed p.more (nonempty p.later)));
      kept = (p.kept ∙ stepped.kept);
    }

push-Pushed :
    (r : TcpReassembler) (bytes future : List ℕ) (ds : List (List ℕ))
    → IsValid r.state
    → Carries r.state (bytes ++ future) ds
    → Pushed r [] (push r bytes) future ds
unfolding push
push-Pushed r bytes future ds valid c =
    push_loop-Pushed (2 * length bytes + 2) r bytes [] future ds (few r.state bytes) valid c

-- Nothing is left of a stream that has ended with a frame.
frames-nil : (ds : List (List ℕ)) → [] ≡ frames ds → nonempty ds ≡ []
frames-nil [] e = refl
frames-nil (d ∷ ds) e = cc

no_bytes :
    (d : List ℕ) (ds : List (List ℕ))
    → length d ≡ 0
    → length (frames ds) ≡ 0
    → nonempty (d ∷ ds) ≡ []
no_bytes [] [] e h = refl
no_bytes [] (d ∷ ds) e h = absurd (omega (arith, h))
no_bytes (b ∷ bs) ds e h = absurd (omega (arith, e))

drained :
    (s : ReassemblerState) (ds : List (List ℕ)) → IsValid s → Carries s [] ds → nonempty ds ≡ []
drained (header buf filled) [] valid c = refl
drained (header buf filled) (d ∷ ds) valid c = absurd (
    omega (
      arith,
      valid,
      ap length c.stream,
      length-append (take filled buf) [],
      length-take filled buf,
    ))
drained (body expected buf) ds valid c =
    let f =
      front_frame (expected % 2 ^ 16 / 256) (expected % 256) (buf ++ []) ds c.stream c.short in
    let same = ap length f.tail_is in
    let left = length-append buf [] in
    let right = length-append f.d (frames f.others) in
    let measured = f.is_length in
    ap nonempty f.is_first
    ∙ no_bytes f.d f.others (omega (arith, valid, same, left, right, measured))
        (omega (arith, valid, same, left, right, measured))

-- What follows a call that ended, behind what it completed.
unfoldable after :
    Option (TcpReassembler × List (List ℕ))
    → (TcpReassembler → Option (TcpReassembler × List (List ℕ)))
    → Option (TcpReassembler × List (List ℕ))
after none next = none
after (some (r, out)) next =
    Option.map (λ (p : TcpReassembler × List (List ℕ)). (p.0, out ++ p.1)) (next r)

-- The pieces of a stream, one call of `push` each.
unfoldable pub push_all : TcpReassembler → List (List ℕ) → Option (TcpReassembler × List (List ℕ))
unfolding after
push_all r [] = some (r, [])
push_all r (piece ∷ pieces) = after (push r piece) (λ r'. push_all r' pieces)

-- The pieces one after another.
abbrev pub joined : List (List ℕ) → List ℕ
joined [] = []
joined (piece ∷ pieces) = piece ++ joined pieces

push_all-Carries :
    (pieces : List (List ℕ)) (r : TcpReassembler) (ds : List (List ℕ))
    → IsValid r.state
    → Carries r.state (joined pieces) ds
    → (r' : TcpReassembler) × (push_all r pieces ≡ some (r', nonempty ds))
      × (r'.oversized_rejected ≡ r.oversized_rejected)
unfolding push_all
push_all-Carries [] r ds valid c = (r, rw (drained r.state ds valid c) refl, refl)
push_all-Carries (piece ∷ pieces) r ds valid c =
    let p = push-Pushed r piece (joined pieces) ds valid c in
    let (r', ended, kept) = push_all-Carries pieces p.r' p.later p.valid p.carries in
    (r', rw (p.ended, ended, p.out) refl, kept ∙ p.kept)

abbrev pub both : Option (List ℕ) → Option (List ℕ) → Option (List ℕ)
both none b = none
both (some a) none = none
both (some a) (some b) = some (a ++ b)

-- `encode` on each of some datagrams, joined; `none` where one is too long.
abbrev pub encode_all : List (List ℕ) → Option (List ℕ)
encode_all [] = some []
encode_all (d ∷ ds) = both (encode d) (encode_all ds)

some_injective {ℓ} : {A : Type ℓ} {a b : A} → some a ≡ some b → a ≡ b
some_injective h = cc

none≢some {ℓ} : {A : Type ℓ} {a : A} → none ≢ some a
none≢some h = cc

encode_all-frames :
    (ds : List (List ℕ)) (stream : List ℕ)
    → encode_all ds ≡ some stream
    → (stream ≡ frames ds) × AllShort ds
unfolding encode
encode_all-frames [] stream e = (sym (some_injective e), tt)
encode_all-frames (d ∷ ds) stream e = elim (Bool-cases (ltb tcp_max_datagram_bytes (length d))) [
  | inl long ↦ absurd (none≢some (rw long at e))
  | inr short ↦ elim (Option-cases (encode_all ds)) [
    | inl none_left ↦ absurd (none≢some (rw (short, none_left) at e))
    | inr (more, found) ↦
        let (same, all_short) = encode_all-frames ds more found in
        (sym (some_injective (rw (short, found, same) at e)), (ground (arith, short), all_short))
  ]
]

-- However the stream of some encoded datagrams is cut into pieces, empty ones and cuts inside of a length
-- prefix included, the calls of `push` on the pieces complete exactly those of the datagrams
-- that are not empty, in order, and reject nothing.
pub push_all-encode_all :
    (ds : List (List ℕ)) (pieces : List (List ℕ))
    → encode_all ds ≡ some (joined pieces)
    → (r' : TcpReassembler) × (push_all new pieces ≡ some (r', nonempty ds))
      × (r'.oversized_rejected ≡ 0)
unfolding new
push_all-encode_all ds pieces e =
    let (stream, short) = encode_all-frames ds (joined pieces) e in
    push_all-Carries pieces new ds (omega arith) (record { stream = stream; short = short })
