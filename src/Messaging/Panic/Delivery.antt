-- ===== src/Messaging/Panic/Delivery.antt =====
-- core/messaging/src/panic_key.rs: what the receiver does with the notices of a sender.
use lowband.Prelude.{
  ℕ, zero, suc, ◌+◌, ◌%◌, ◌^◌, ◌<◌, ◌≡◌, refl, arith, true, false, Option, none, some, inl, inr,
  Bool-cases,
}
use lowband.Messaging.Wire.{PanicNotice}
use lowband.Messaging.Grants.{ControlSession}
use lowband.Messaging.Panic.{
  PanicController, PanicNoticeReceiver, apply, is_stale, fire_panic, fire_panic_with_notice,
}

-- The receiver after a run of notices, whatever the sessions that each is applied to.
pub data Received : PanicNoticeReceiver → PanicNoticeReceiver → Type 0 where
  nothing : {r : PanicNoticeReceiver} → Received r r
  one_more :
      {r r' : PanicNoticeReceiver} (n : PanicNotice) (c : ControlSession) (p : PanicController)
      → Received (apply r n c p).receiver r'
      → Received r r'

self : (n : ℕ) → is_stale (some n) n ≡ true
unfolding is_stale
self n = ground arith

climb :
    (last : Option ℕ) (n seq : ℕ)
    → is_stale last n ≡ false
    → is_stale last seq ≡ true
    → is_stale (some n) seq ≡ true
unfolding is_stale
climb none n seq fresh old = cc
climb (some l) n seq fresh old = ground arith

apply-is_stale :
    (r : PanicNoticeReceiver) (n : PanicNotice) (c : ControlSession) (p : PanicController)
    → is_stale (apply r n c p).receiver.last_seq n.seq ≡ true
unfolding apply
apply-is_stale r n c p = elim (Bool-cases (is_stale r.last_seq n.seq)) [
  | inl stale ↦ rw stale stale
  | inr fresh ↦ rw fresh (self n.seq)
]

apply-is_stale_other :
    (r : PanicNoticeReceiver) (n : PanicNotice) (c : ControlSession) (p : PanicController) (seq : ℕ)
    → is_stale r.last_seq seq ≡ true
    → is_stale (apply r n c p).receiver.last_seq seq ≡ true
unfolding apply
apply-is_stale_other r n c p seq old = elim (Bool-cases (is_stale r.last_seq n.seq)) [
  | inl stale ↦ rw stale old
  | inr fresh ↦ rw fresh (climb r.last_seq n.seq seq fresh old)
]

Received-is_stale :
    {r r' : PanicNoticeReceiver} (seq : ℕ)
    → Received r r'
    → is_stale r.last_seq seq ≡ true
    → is_stale r'.last_seq seq ≡ true
Received-is_stale seq nothing h = h
Received-is_stale {r = r} seq (one_more n c p more) h =
    Received-is_stale seq more (apply-is_stale_other r n c p seq h)

-- A notice that was delivered once has no effect when it comes again, whatever notices came between
-- and whatever grant the technician was given since: it reports no new notice and changes no state.
apply-Received :
    (receiver later : PanicNoticeReceiver) (notice : PanicNotice)
    (control control' : ControlSession) (panic panic' : PanicController)
    → Received (apply receiver notice control panic).receiver later
    → apply later notice control' panic'
      ≡ record { severed = false; receiver = later; control = control'; panic = panic' }
unfolding apply
apply-Received receiver later notice control control' panic panic' between =
    rw (Received-is_stale notice.seq between (apply-is_stale receiver notice control panic)) refl

-- The key is pressed `n` times, and each notice is delivered before the next press: every press sends a
-- notice, and every notice severs control, whatever grants the two sides hold when it happens.
abbrev pub AllSever : ℕ → PanicController → PanicNoticeReceiver → Type 0
AllSever zero sender receiver = Unit {0}
AllSever (suc n) sender receiver =
    (mine theirs : ControlSession) (panic : PanicController)
    → let notice : PanicNotice = record { seq = sender.next_seq } in
      let fired = fire_panic_with_notice sender mine in
      let applied = apply receiver notice theirs panic in
      (fired.notice ≡ some notice)
      × (applied.severed ≡ true)
      × (applied.control ≡ record { grant = none })
      × AllSever n fired.panic applied.receiver

fired_up :
    (sender : PanicController) (mine : ControlSession)
    → sender.transport_up ≡ true
    → ((fire_panic_with_notice sender mine).panic.next_seq ≡ (sender.next_seq + 1) % 2 ^ 32)
      × ((fire_panic_with_notice sender mine).notice ≡ some (record { seq = sender.next_seq }))
      × ((fire_panic_with_notice sender mine).panic.transport_up ≡ true)
unfolding fire_panic_with_notice fire_panic
fired_up sender mine up = (rw up refl, rw up refl, rw up refl)

apply_fresh :
    (r : PanicNoticeReceiver) (n : PanicNotice) (c : ControlSession) (p : PanicController)
    → is_stale r.last_seq n.seq ≡ false
    → ((apply r n c p).severed ≡ true)
      × ((apply r n c p).control ≡ record { grant = none })
      × ((apply r n c p).receiver.last_seq ≡ some n.seq)
unfolding apply
apply_fresh r n c p fresh = (rw fresh refl, rw fresh refl, rw fresh refl)

next_fresh : (n m : ℕ) → n < m → is_stale (some n) m ≡ false
unfolding is_stale
next_fresh n m h = ground arith

-- While the transport is up, and until the sequence numbers of 32 bits are used up, a receiver that
-- is not ahead of the sender severs control on every notice that the sender's key sends.
pub fire_panic_with_notice-AllSever :
    (n : ℕ) (sender : PanicController) (receiver : PanicNoticeReceiver)
    → sender.transport_up ≡ true
    → sender.next_seq + n < 2 ^ 32
    → is_stale receiver.last_seq sender.next_seq ≡ false
    → AllSever n sender receiver
fire_panic_with_notice-AllSever zero sender receiver up room fresh = tt
fire_panic_with_notice-AllSever (suc n) sender receiver up room fresh = λ mine theirs panic.
    let notice : PanicNotice = record { seq = sender.next_seq } in
    let (counted, sent, still_up) = fired_up sender mine up in
    let (severed, none_left, last) = apply_fresh receiver notice theirs panic fresh in
    let next : (sender.next_seq + 1) % 2 ^ 32 ≡ sender.next_seq + 1 = omega (arith, room) in
    (
      sent,
      severed,
      none_left,
      fire_panic_with_notice-AllSever n (fire_panic_with_notice sender mine).panic
          (apply receiver notice theirs panic).receiver still_up
          (rw (counted, next) (omega (arith, room)))
          (rw (last, counted, next)
            (next_fresh sender.next_seq (sender.next_seq + 1) (omega arith))),
    )
