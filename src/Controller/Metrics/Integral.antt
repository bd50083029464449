-- ===== src/Controller/Metrics/Integral.antt =====
-- The CPU metric of a node over its updates.
use supernetes.Prelude.{ℕ, List, [], ◌∷◌, true, false, ◌≡◌, refl, sym, ap, ◌∙◌, Option, some}
use supernetes.Prelude.Floats.{Floats, IsIeee}
use supernetes.Agent.Scontrol.{Number, unmarshal_number, to_float}
use supernetes.Controller.Metrics.{Sample, MetricsProvider, update, cpu_metric}

module _ {F D : Type 0} (floats : Floats F D) (laws : IsIeee floats) where
  -- some updates, each at its time
  abbrev pub run : List (ℕ × Sample F) → MetricsProvider F D → MetricsProvider F D
  run [] m = m
  run ((now, status) ∷ updates) m = run updates (update floats now status m)

  -- the load of a node as the agent reports it, from the text of scontrol
  abbrev pub reported_load : Number F → F
  reported_load n = floats.hundredth (to_float floats n)

  nan-update :
      (now : ℕ) (status : Sample F) (m : MetricsProvider F D)
      → floats.is_nan m.core_seconds ≡ true
      → floats.is_nan (update floats now status m).core_seconds ≡ true
  unfolding update
  nan-update now status m h = laws.nan_add_left m.core_seconds _ h

  nan-run :
      (updates : List (ℕ × Sample F)) (m : MetricsProvider F D)
      → floats.is_nan m.core_seconds ≡ true
      → floats.is_nan (run updates m).core_seconds ≡ true
  nan-run [] m h = h
  nan-run ((now, status) ∷ updates) m h =
      nan-run updates (update floats now status m) (nan-update now status m h)

  nan-loaded :
      (now : ℕ) (status : Sample F) (m : MetricsProvider F D)
      → m.load_avg ≡ floats.hundredth floats.nan
      → floats.is_nan (update floats now status m).core_seconds ≡ true
  unfolding update
  nan-loaded now status m h =
      laws.nan_add_right m.core_seconds _
        (laws.nan_mul _ _ (ap (λ x. floats.is_nan (floats.widen x)) h ∙ laws.nan_widen))

  unset-nan :
      (x : F) (fields : Option (Number F)) (n : Number F)
      → floats.is_positive x ≡ false
      → unmarshal_number floats (some x) fields ≡ some n
      → to_float floats n ≡ floats.nan
  unfolding unmarshal_number to_float
  unset-nan x fields n low e =
      let same : record { set = floats.is_positive x; infinite = floats.is_inf x; number = x } ≡ n =
        cc e in
      ap (to_float floats) (sym same) ∙ rw low refl

  -- Once scontrol has given the load of a node as a plain number that is not positive, as for an
  -- idle node, the CPU metric of the node is NaN from the next update on, whatever is reported
  -- later.
  pub run-nan :
      (x : F) (fields : Option (Number F)) (n : Number F) (now next : ℕ) (ws_bytes : ℕ)
      (status : Sample F) (updates : List (ℕ × Sample F)) (m : MetricsProvider F D)
      → floats.is_positive x ≡ false
      → unmarshal_number floats (some x) fields ≡ some n
      → floats.is_nan
          (cpu_metric floats (
            run
              ((now, record { cpu_load = reported_load n; ws_bytes = ws_bytes })
                ∷ (next, status)
                ∷ updates)
              m)).value
        ≡ true
  unfolding cpu_metric
  run-nan x fields n now next ws_bytes status updates m low e =
      let idle = update floats now (record { cpu_load = reported_load n; ws_bytes = ws_bytes }) m in
      nan-run updates (update floats next status idle) (
        nan-loaded next status idle
          (unfold update in ap floats.hundredth (unset-nan x fields n low e)))
