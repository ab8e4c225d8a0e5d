-- ===== src/Transport/Tcp.antt =====
-- core/lbtp/src/tcp_fallback.rs: datagrams in a TCP byte stream, each behind its length.
pub mod Progress
pub mod Stream
pub mod Pieces
mod Tests
use lowband.Prelude.{
  ℕ, zero, suc, ◌+◌, ◌-◌, ◌*◌, ◌/◌, ◌%◌, ◌^◌, Bool, Option, none, some, List, [], ◌∷◌, ◌++◌, length,
  take, drop, min, ltb, ◌==◌, if◌then◌else◌,
}

abbrev pub tcp_length_prefix_bytes : ℕ
tcp_length_prefix_bytes = 2

abbrev pub tcp_max_datagram_bytes : ℕ
tcp_max_datagram_bytes = 1_200

-- `(n as u16).to_be_bytes()`
abbrev pub to_be_bytes : ℕ → List ℕ
to_be_bytes n = (n % 2 ^ 16 / 256) ∷ (n % 256) ∷ []

-- `u16::from_be_bytes`; the buffer has two bytes.
abbrev pub from_be_bytes : List ℕ → ℕ
from_be_bytes [] = 0
from_be_bytes (a ∷ []) = 256 * a
from_be_bytes (a ∷ b ∷ _) = 256 * a + b

-- `TcpFramer::encode`
unfoldable pub encode : List ℕ → Option (List ℕ)
encode datagram =
    if ltb tcp_max_datagram_bytes (length datagram)
    then none
    else some (to_be_bytes (length datagram) ++ datagram)

pub data ReassemblerState : Type 0 where
  header : List ℕ → ℕ → ReassemblerState
  body : ℕ → List ℕ → ReassemblerState

pub record TcpReassembler : Type 0 where
  pub state : ReassemblerState
  pub oversized_rejected : ℕ

abbrev pub empty_header : ReassemblerState
empty_header = header (0 ∷ 0 ∷ []) 0

unfoldable pub new : TcpReassembler
new = record { state = empty_header; oversized_rejected = 0 }

-- `buf[at..at + src.len()].copy_from_slice(src)`
abbrev pub write_at : List ℕ → ℕ → List ℕ → List ℕ
write_at buf at src = take at buf ++ (src ++ drop (at + length src) buf)

-- One round of the loop: the reassembler, the bytes left and the datagram that is complete.
pub record Round : Type 0 where
  pub reassembler : TcpReassembler
  pub rest : List ℕ
  pub completed : List (List ℕ)

-- The length prefix is complete.
unfoldable pub length_read : ℕ → ℕ → TcpReassembler
length_read rejected len =
    if ltb tcp_max_datagram_bytes len
    then record { state = empty_header; oversized_rejected = (rejected + 1) % 2 ^ 32 }
    else record { state = body len []; oversized_rejected = rejected }

unfoldable pub header_round : ℕ → List ℕ → List ℕ → ℕ → Round
header_round rejected rest buf filled =
    let copy = min (tcp_length_prefix_bytes - filled) (length rest) in
    let buf' = write_at buf filled (take copy rest) in
    record {
      reassembler =
          (if filled + copy == tcp_length_prefix_bytes
            then length_read rejected (from_be_bytes buf')
            else record { state = header buf' (filled + copy); oversized_rejected = rejected });
      rest = drop copy rest;
      completed = [];
    }

unfoldable pub body_round : ℕ → List ℕ → ℕ → List ℕ → Round
body_round rejected rest expected buf =
    let copy = min (expected - length buf) (length rest) in
    let buf' = buf ++ take copy rest in
    if length buf' == expected
    then record {
      reassembler = record { state = empty_header; oversized_rejected = rejected };
      rest = drop copy rest;
      completed = (if ltb 0 expected then buf' ∷ [] else []);
    }
    else record {
      reassembler = record { state = body expected buf'; oversized_rejected = rejected };
      rest = drop copy rest;
      completed = [];
    }

unfoldable pub round_of : ReassemblerState → ℕ → List ℕ → Round
round_of (header buf filled) rejected rest = header_round rejected rest buf filled
round_of (body expected buf) rejected rest = body_round rejected rest expected buf

-- `while pos < bytes.len()`, on what is left of the bytes; `none` means that the fuel ran out.
unfoldable pub push_loop :
    ℕ → TcpReassembler → List ℕ → List (List ℕ) → Option (TcpReassembler × List (List ℕ))
push_loop zero r rest completed = none
push_loop (suc fuel) r [] completed = some (r, completed)
push_loop (suc fuel) r (b ∷ bs) completed =
    let round = round_of r.state r.oversized_rejected (b ∷ bs) in
    push_loop fuel round.reassembler round.rest (completed ++ round.completed)

-- Two rounds at most for each byte.
unfoldable pub push : TcpReassembler → List ℕ → Option (TcpReassembler × List (List ℕ))
push r bytes = push_loop (2 * length bytes + 2) r bytes []
