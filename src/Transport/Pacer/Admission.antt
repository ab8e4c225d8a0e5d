-- ===== src/Transport/Pacer/Admission.antt =====
-- core/lbtp/src/pacer.rs: what `enqueue` accepts, and the probes of core/lbtp/src/mtu.rs.
use lowband.Prelude.{
  ℕ, ◌≤◌, ◌<◌, ◌≡◌, refl, sym, arith, true, false, none, some, List, [], ◌∷◌, ◌++◌, length, ltb,
  ◌==◌, ==_iff, Bool-cases, inl, inr, ◌⊎◌,
}
use lowband.Prelude.Float.{Float}
use lowband.Transport.Mtu.{PathMtuController, MtuProbeFrame, start_probe}
use lowband.Transport.Mtu.Ladder.{start_probe-size}
use lowband.Transport.Pacer.{
  PacerFrame, Queues, set_queue, max_frame_data_bytes, num_channels, Pacer, enqueue,
}
use lowband.Transport.Pacer.Scan.{All}
use lowband.Transport.Pacer.Drained.{IsProper, IsTidy}

All-snoc :
    (P : PacerFrame → Type 0) (fs : List PacerFrame) (f : PacerFrame)
    → All P fs
    → P f
    → All P (fs ++ (f ∷ []))
All-snoc P [] f h p = (p, tt)
All-snoc P (g ∷ fs) f h p = (h.0, All-snoc P fs f h.1 p)

push-IsTidy :
    (qs : Queues) (f : PacerFrame)
    → IsTidy qs
    → length f.payload ≤ max_frame_data_bytes
    → IsTidy (set_queue qs f.channel (qs f.channel ++ (f ∷ [])))
push-IsTidy qs f tidy small c = elim (Bool-cases (c == f.channel)) [
  | inl same ↦
      let e : c ≡ f.channel = (==_iff c f.channel).0 same in
      rw same (All-snoc (IsProper c) (qs f.channel) f (rw (← e) (tidy c)) (sym e, omega arith))
  | inr other ↦ rw other (tidy c)
]

module _ (fl : Float) where
  -- On tidy queues: `enqueue` refuses exactly the frames over the limit and then changes nothing, panics
  -- exactly on an admissible frame beyond the nine channels, and otherwise the queues stay tidy.
  pub enqueue-IsTidy :
      (p : Pacer fl) (f : PacerFrame)
      → IsTidy p.queues
      → ((max_frame_data_bytes < length f.payload) × (enqueue fl p f ≡ some (p, false)))
        ⊎ ((length f.payload ≤ max_frame_data_bytes)
            × (num_channels ≤ f.channel)
            × (enqueue fl p f ≡ none))
        ⊎ ((p' : Pacer fl) × (enqueue fl p f ≡ some (p', true))
            × IsTidy p'.queues
            × (length f.payload ≤ max_frame_data_bytes)
            × (f.channel < num_channels))
  unfolding enqueue
  enqueue-IsTidy p f tidy = elim (Bool-cases (ltb max_frame_data_bytes (length f.payload))) [
    | inl large ↦ rw large (inl (ground arith, refl))
    | inr small ↦ rw small (elim (Bool-cases (ltb f.channel num_channels)) [
      | inl known ↦ rw known (
          inr (
            inr (
              record p { queues = set_queue p.queues f.channel (p.queues f.channel ++ (f ∷ [])) },
              refl,
              push-IsTidy p.queues f tidy (ground arith),
              ground arith,
              ground arith,
            )))
      | inr unknown ↦ rw unknown (inr (inl (ground arith, ground arith, refl)))
    ])
  ]

  -- The frame that carries a probe of `start_probe`, on the probe channel 8 and padded to the size that
  -- the probe asks for, is over the limit of a frame: `enqueue` refuses every probe, whatever the
  -- controller has confirmed before.
  enqueue-start_probe :
      (p : Pacer fl) (c : PathMtuController) (probe : MtuProbeFrame) (padding : List ℕ)
      → (start_probe c).1 ≡ some probe
      → length padding ≡ probe.payload_bytes
      → enqueue fl p (record { channel = 8; payload = padding }) ≡ some (p, false)
  unfolding enqueue
  enqueue-start_probe p c probe padding e size = ground (arith, start_probe-size c probe e)
