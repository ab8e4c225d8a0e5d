-- ===== src/Transport/HolePunch/Silence.antt =====
-- core/lbtp/src/hole_punch.rs: probing while no datagram of the peer arrives.
use lowband.Prelude.{
  ℕ, zero, suc, ◌+◌, ◌-◌, ◌*◌, ◌/◌, ◌≤◌, ◌<◌, ◌≡◌, refl, arith, Option, none, some, List, [], ◌∷◌,
  ◌++◌,
}
use lowband.Transport.HolePunch.{
  HolePunchController, probing, connected, failed, HolePunchEvent, send_probe, connected_event,
  failed_event, new_frame, start, tick, tick_state, interval_elapsed, on_probe_received,
  received_in, probes_sent, sent_in,
}

abbrev events_of : Option HolePunchEvent → List HolePunchEvent
events_of none = []
events_of (some e) = e ∷ []

-- `n` ticks, with the events that they report, oldest first.
pub ticks : ℕ → HolePunchController → HolePunchController × List HolePunchEvent
ticks zero c = (c, [])
ticks (suc n) c = let (c', es) = ticks n (tick c).0 in (c', events_of (tick c).1 ++ es)

-- `m` probes with the numbers from `seq` on.
abbrev pub probes : ℕ → ℕ → ℕ → List HolePunchEvent
probes nonce seq zero = []
probes nonce seq (suc m) = send_probe (new_frame nonce seq) ∷ probes nonce (seq + 1) m

elapsed_more :
    (nonce sent : ℕ)
    → sent < 10
    → interval_elapsed nonce sent
      ≡ (record { state = probing nonce (sent + 1) 5 }, some (send_probe (new_frame nonce sent)))
unfolding interval_elapsed
elapsed_more nonce sent h = ground (arith, h)

elapsed_last :
    (nonce sent : ℕ)
    → sent ≡ 10
    → interval_elapsed nonce sent ≡ (record { state = failed }, some failed_event)
unfolding interval_elapsed
elapsed_last nonce sent h = ground (arith, h)

-- The recursion is on the ticks, which `m` further probes and the timer add up to.
ticks-probing :
    (n nonce sent m left : ℕ)
    → sent + m ≡ 10
    → n ≡ m * 6 + left
    → ticks (suc n) (record { state = probing nonce sent left })
      ≡ (record { state = failed }, probes nonce sent m ++ (failed_event ∷ []))
unfolding ticks tick tick_state
ticks-probing zero nonce sent zero zero all e = rw (elapsed_last nonce sent (omega arith)) refl
ticks-probing zero nonce sent (suc m) zero all e = absurd (omega arith)
ticks-probing zero nonce sent m (suc left) all e = absurd (omega arith)
ticks-probing (suc n) nonce sent zero zero all e = absurd (omega arith)
ticks-probing (suc n) nonce sent (suc m) zero all e =
    rw (elapsed_more nonce sent (omega arith))
      (cc (ticks-probing n nonce (sent + 1) m 5 (omega arith) (omega arith)))
ticks-probing (suc n) nonce sent m (suc left) all e =
    cc (ticks-probing n nonce sent m left all (omega arith))

-- The state after fewer ticks: the probes sent and the timer.
ticks-early :
    (n nonce sent left : ℕ)
    → n + sent * 6 < 60 + left + 1
    → left ≤ 5
    → (left' : ℕ) × ((ticks n (record { state = probing nonce sent left })).0
        ≡ record { state = probing nonce (sent + (n + 5 - left) / 6) left' })
unfolding ticks tick tick_state
ticks-early zero nonce sent left h small =
    let e : sent + (0 + 5 - left) / 6 ≡ sent = omega arith in (left, rw e refl)
ticks-early (suc n) nonce sent zero h small =
    let (left', e) = ticks-early n nonce (sent + 1) 5 (omega arith) (omega arith) in
    let f : sent + (suc n + 5 - 0) / 6 ≡ sent + 1 + (n + 5 - 5) / 6 = omega arith in
    (left', rw (elapsed_more nonce sent (omega arith), f) e)
ticks-early (suc n) nonce sent (suc left) h small =
    let (left', e) = ticks-early n nonce sent left (omega arith) (omega arith) in
    let f : sent + (suc n + 5 - suc left) / 6 ≡ sent + (n + 5 - left) / 6 = omega arith in
    (left', rw f e)

connected_ticks :
    (m : ℕ) → ticks m (record { state = connected }) ≡ (record { state = connected }, [])
unfolding ticks tick tick_state
connected_ticks zero = refl
connected_ticks (suc m) = cc (connected_ticks m)

response-probing :
    (nonce sent left : ℕ)
    → (on_probe_received (record { state = probing nonce sent left })
        ≡ (record { state = connected }, some connected_event))
      × (probes_sent (record { state = probing nonce sent left }) ≡ sent)
unfolding on_probe_received received_in probes_sent sent_in
response-probing nonce sent left = (refl, refl)

-- From any state `start` sends probe 0. With no datagram from the peer, after `n` ticks, fewer than 60,
-- one probe and one for each six of the ticks are sent, and a datagram that then arrives connects the
-- path, after which no tick reports anything. At the 60th tick probes 1 to 9 have been sent, each once
-- and in order, and the path has failed.
pub start-ticks :
    (c : HolePunchController) (nonce n m : ℕ)
    → n < 60
    → ((start c nonce).1 ≡ new_frame nonce 0)
      × (probes_sent (ticks n (start c nonce).0).0 ≡ 1 + n / 6)
      × (on_probe_received (ticks n (start c nonce).0).0
          ≡ (record { state = connected }, some connected_event))
      × (ticks m (on_probe_received (ticks n (start c nonce).0).0).0
          ≡ (record { state = connected }, []))
      × (ticks 60 (start c nonce).0
          ≡ (record { state = failed }, probes nonce 1 9 ++ (failed_event ∷ [])))
unfolding start
start-ticks c nonce n m h =
    let (left, e) = ticks-early n nonce 1 5 (omega arith) (omega arith) in
    let f : 1 + (n + 5 - 5) / 6 ≡ 1 + n / 6 = omega arith in
    let (answered, sent) = response-probing nonce (1 + (n + 5 - 5) / 6) left in
    (
      refl,
      rw (e, sent) f,
      rw e answered,
      rw (e, answered) (connected_ticks m),
      ticks-probing 59 nonce 1 9 5 refl refl,
    )
