-- ===== src/Messaging/Chat/Tests.antt =====
-- core/messaging/src/chat.rs: runs of the outbox.
use lowband.Prelude.{ℕ, ◌≡◌, refl, true, List, [], ◌∷◌}
use lowband.Messaging.Utf8.{is_utf8}
use lowband.Messaging.Chat.Outbox.{Action, send_text, hand_off}

abbrev hello : List ℕ
hello = 104 ∷ 105 ∷ []

abbrev actions : List Action
actions = send_text hello ∷ hand_off ∷ send_text [] ∷ []

hello_utf8 : is_utf8 hello ≡ true
unfolding is_utf8
hello_utf8 = refl
