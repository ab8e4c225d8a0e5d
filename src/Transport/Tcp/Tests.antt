-- ===== src/Transport/Tcp/Tests.antt =====
-- core/lbtp/src/tcp_fallback.rs: runs of the framing.
use lowband.Prelude.{ℕ, ◌≡◌, refl, some, List, [], ◌∷◌}
use lowband.Transport.Tcp.{
  encode, body, TcpReassembler, empty_header, new, push, push_loop, round_of, header_round,
  body_round, length_read,
}
use lowband.Transport.Tcp.Stream.{nonempty}
use lowband.Transport.Tcp.Pieces.{joined, encode_all, push_all, push_all-encode_all}

abbrev datagrams : List (List ℕ)
datagrams = (1 ∷ 2 ∷ 3 ∷ []) ∷ [] ∷ (9 ∷ []) ∷ []

-- A cut inside of the first prefix, one inside of a body and an empty piece.
abbrev pieces : List (List ℕ)
pieces = (0 ∷ []) ∷ (3 ∷ 1 ∷ []) ∷ [] ∷ (2 ∷ 3 ∷ 0 ∷ []) ∷ (0 ∷ 0 ∷ 1 ∷ 9 ∷ []) ∷ []

encoded : encode_all datagrams ≡ some (joined pieces)
unfolding encode
encoded = refl

push-two :
    push new (0 ∷ 1 ∷ 7 ∷ 0 ∷ 2 ∷ 8 ∷ [])
    ≡ some (record { state = body 2 (8 ∷ []); oversized_rejected = 0 }, (7 ∷ []) ∷ [])
unfolding push new push_loop round_of header_round body_round length_read
push-two = refl

-- The bytes behind a prefix that is too large are read as the next prefix.
push_oversized :
    push new (5 ∷ 0 ∷ 0 ∷ 1 ∷ 7 ∷ [])
    ≡ some (record { state = empty_header; oversized_rejected = 1 }, (7 ∷ []) ∷ [])
unfolding push new push_loop round_of header_round body_round length_read
push_oversized = refl

push_all-encode_all_example :
    (r' : TcpReassembler) × (push_all new pieces ≡ some (r', nonempty datagrams))
    × (r'.oversized_rejected ≡ 0)
push_all-encode_all_example = push_all-encode_all datagrams pieces encoded

abbrev halfway : TcpReassembler
halfway = record { state = body 4 (1 ∷ 2 ∷ []); oversized_rejected = 3 }
