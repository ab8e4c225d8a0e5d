-- ===== src/Crypto/KnownPeers/Tests.antt =====
-- core/crypto/src/known_peers.rs: two peers and a label.
use lowband.Prelude.{bytes_eq, ℕ, ◌≡◌, refl, true, some, List, [], ◌∷◌, ◌++◌, take, replicate}
use lowband.Messaging.Utf8.{is_utf8}
use lowband.Messaging.Utf8.Boundary.{is_char_boundary}
use lowband.Crypto.KnownPeers.{new, find_by_key, walk_back, truncate_to_120_bytes}
use lowband.Crypto.KnownPeers.History.{
  meet_all, times_of, first_and_greatest, seen_times, find_by_key-meet_all,
}

abbrev alice : List ℕ
alice = replicate 32 26

abbrev bob : List ℕ
bob = replicate 32 27

-- The clock goes back before the last contact.
abbrev contacts : List (List ℕ × ℕ)
contacts = (alice, 1000) ∷ (bob, 3000) ∷ (alice, 5000) ∷ (alice, 4000) ∷ []

find_by_key-meet_all_example :
    seen_times (find_by_key (meet_all new contacts) alice)
    ≡ first_and_greatest (times_of alice contacts)
find_by_key-meet_all_example = find_by_key-meet_all contacts alice

alice_times : first_and_greatest (times_of alice contacts) ≡ some (1000, 5000)
unfolding bytes_eq
alice_times = refl

-- 119 letters and a character of two bytes.
abbrev long : List ℕ
long = replicate 119 97 ++ (0xc3 ∷ 0xa9 ∷ [])

truncated : truncate_to_120_bytes long ≡ replicate 119 97
unfolding truncate_to_120_bytes walk_back is_char_boundary
truncated = refl

long-is_utf8 : is_utf8 long ≡ true
unfolding is_utf8
long-is_utf8 = refl

short_is_utf8 : is_utf8 (take 119 long) ≡ true
unfolding is_utf8
short_is_utf8 = refl

first_id : new.next_id ≡ 1
unfolding new
first_id = refl
