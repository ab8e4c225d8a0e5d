-- ===== src/Messaging/Chat.antt =====
-- core/messaging/src/chat.rs: the outbox of chat messages.
pub mod Outbox
mod Tests
use lowband.Prelude.{ℕ, Bool, List, [], ◌∷◌, ◌++◌, length, ltb, if◌then◌else◌}
use lowband.Messaging.Wire.{chat_max_text_bytes}

pub record ChatMessage : Type 0 where
  pub text : List ℕ

pub data ChatError : Type 0 where
  text_too_long : ℕ → ChatError

pub record ChatSession : Type 0 where
  pub outbox : List ChatMessage

-- What `send` returns: the message that was queued.
pub data Sent : Type 0 where
  queued : ChatMessage → Sent
  failed : ChatError → Sent

unfoldable pub new : ChatSession
new = record { outbox = [] }

unfoldable pub send : ChatSession → List ℕ → ChatSession × Sent
send session text =
    if ltb chat_max_text_bytes (length text)
    then (session, failed (text_too_long (length text)))
    else (
      record { outbox = session.outbox ++ (record { text = text } ∷ []) },
      queued (record { text = text }),
    )

-- `std::mem::take`
unfoldable pub drain : ChatSession → ChatSession × List ChatMessage
drain session = (record { outbox = [] }, session.outbox)
