-- ===== src/Messaging/Chat/Outbox.antt =====
-- core/messaging/src/chat.rs and core/messaging/src/wire.rs: messages leave in order and arrive.
use lowband.Prelude.{
  ℕ, ◌≤◌, ◌<◌, ◌≡◌, refl, sym, ap, ◌∙◌, arith, true, false, List, [], ◌∷◌, ◌++◌, length, ltb, leb,
  append_assoc, append-nil, if◌then◌else◌, Bool-cases, ◌⊎◌, inl, inr,
}
use lowband.Messaging.Utf8.{is_utf8}
use lowband.Messaging.Wire.{chat_max_text_bytes, chat, ok, encode, decode}
use lowband.Messaging.Wire.RoundTrip.{decode-encode}
use lowband.Messaging.Chat.{ChatMessage, ChatSession, queued, failed, text_too_long, send, drain}

-- What the program does with a session: it sends a text, or hands the outbox to the transport.
pub data Action : Type 0 where
  send_text : List ℕ → Action
  hand_off : Action

-- The session after the actions, and the messages handed over, in order.
abbrev pub run : ChatSession → List Action → ChatSession × List ChatMessage
run s [] = (s, [])
run s (send_text t ∷ as') = run (send s t).0 as'
run s (hand_off ∷ as') = let rest = run (drain s).0 as' in (rest.0, (drain s).1 ++ rest.1)

-- The texts within the limit, in the order that they were sent in.
abbrev pub within : List Action → List ChatMessage
within [] = []
within (send_text t ∷ as') =
    let rest = within as' in
    if leb (length t) chat_max_text_bytes then record { text = t } ∷ rest else rest
within (hand_off ∷ as') = within as'

send_long :
    (s : ChatSession) (t : List ℕ) → ltb chat_max_text_bytes (length t) ≡ true → (send s t).0 ≡ s
unfolding send
send_long s t long = rw long refl

send_short :
    (s : ChatSession) (t : List ℕ)
    → ltb chat_max_text_bytes (length t) ≡ false
    → (send s t).0 ≡ record { outbox = s.outbox ++ (record { text = t } ∷ []) }
unfolding send
send_short s t short = rw short refl

-- Whatever is sent and whenever the outbox is handed over: the messages handed over and those still
-- queued are, in order and each once, those queued at first and the texts sent of at most 256 bytes.
run-within :
    (actions : List Action) (s : ChatSession)
    → (run s actions).1 ++ (run s actions).0.outbox ≡ s.outbox ++ within actions
unfolding drain
run-within [] s = sym (append-nil s.outbox)
run-within (send_text t ∷ as') s = elim (Bool-cases (ltb chat_max_text_bytes (length t))) [
  | inl long ↦
      let cut : leb (length t) chat_max_text_bytes ≡ false = ground (arith, long) in
      let sent = run (send s t).0 as' in
      let kept : sent.1 ++ sent.0.outbox ≡ s.outbox ++ within as' =
        run-within as' (send s t).0 ∙ ap (λ l. l.outbox ++ within as') (send_long s t long) in
      rw cut kept
  | inr short ↦
      let fits : leb (length t) chat_max_text_bytes ≡ true = ground (arith, short) in
      let sent = run (send s t).0 as' in
      let message : ChatMessage = record { text = t } in
      let grown : (send s t).0.outbox ++ within as' ≡ s.outbox ++ (message ∷ within as') =
        ap (λ l. l.outbox ++ within as') (send_short s t short)
        ∙ append_assoc s.outbox (message ∷ []) (within as') in
      let kept : sent.1 ++ sent.0.outbox ≡ s.outbox ++ (message ∷ within as') =
        run-within as' (send s t).0 ∙ grown in
      rw fits kept
]
run-within (hand_off ∷ as') s =
    append_assoc s.outbox (run (drain s).0 as').1 (run (drain s).0 as').0.outbox
    ∙ ap (λ l. s.outbox ++ l) (run-within as' (drain s).0)

-- A text is queued exactly when it has at most 256 bytes, and then its frame is decoded to the same
-- text, whatever bytes follow; a longer text changes nothing, and its length is reported.
send-decode :
    (s : ChatSession) (text rest : List ℕ)
    → is_utf8 text ≡ true
    → (((send s text).1 ≡ queued (record { text = text }))
        × (length text ≤ chat_max_text_bytes)
        × (decode (encode (chat text) ++ rest) ≡ ok (chat text)))
      ⊎ (((send s text).1 ≡ failed (text_too_long (length text)))
          × (chat_max_text_bytes < length text)
          × ((send s text).0 ≡ s))
unfolding send
send-decode s text rest valid = elim (Bool-cases (ltb chat_max_text_bytes (length text))) [
  | inl long ↦ inr (rw long refl, ground (arith, long), rw long refl)
  | inr short ↦
      let fits : length text ≤ chat_max_text_bytes = ground (arith, short) in
      inl (rw short refl, fits, decode-encode (chat text) rest (fits, valid))
]
