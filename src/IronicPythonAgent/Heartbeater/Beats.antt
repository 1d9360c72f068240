-- ===== src/IronicPythonAgent/Heartbeater/Beats.antt =====
-- agent.py: how many heartbeats the thread sends, and when its loop ends.
use mathlib.Core.Path.{subst}
use test_frerfhrebfd.Common.{
  ℕ, zero, suc, ◌≤◌, true, false, List, [], ◌∷◌, ◌++◌, length, ◌≡◌, refl, sym, ap, ◌∙◌, Bool-cases,
  inl, inr, arith,
}
use test_frerfhrebfd.Exec.{ok, Exec, Result-cases, ◌>>=◌}
use test_frerfhrebfd.IronicPythonAgent.{Python, python3}
use test_frerfhrebfd.IronicPythonAgent.Heartbeater.{
  initial_delay, max_delay, Heart, Wake, stops, Beating, stopped, polling, do_heartbeat, beat_round,
  beat_on, run_heartbeater, is_stop,
}

-- No wake of a list ends the loop.
abbrev pub NoneStops : Python → List Wake → Type 0
NoneStops python [] = Unit {0}
NoneStops python (wake ∷ wakes) = (stops python wake ≡ false) × NoneStops python wakes

-- The delay after an error lies between the first and the longest one.
abbrev pub InBounds : {W : Type 0} → Heart W → Type 0
InBounds s = (initial_delay ≤ s.error_delay) × (s.error_delay ≤ max_delay)

module _ {W : Type 0} (send : Exec W (Unit {0})) where
  abbrev pub beat : Heart W → Heart W
  beat s = (do_heartbeat send s).1

  -- The state after some heartbeats.
  abbrev pub heartbeats : ℕ → Heart W → Heart W
  heartbeats zero s = s
  heartbeats (suc n) s = heartbeats n (beat s)

  -- How the loop stands: it polls after a heartbeat for each wake, or it has ended at the first
  -- wake that ends it, after a heartbeat for each wake before.
  abbrev pub Beats : Python → List Wake → Heart W → Beating → Heart W → Type 0
  Beats python wakes s polling t = NoneStops python wakes × (t ≡ heartbeats (length wakes) s)
  Beats python wakes s stopped t =
      (before : List Wake) × (wake : Wake) × (rest : List Wake) × (wakes ≡ before ++ wake ∷ rest)
      × NoneStops python before
      × (stops python wake ≡ true)
      × (t ≡ heartbeats (length before) s)

  do_heartbeat_ok : (s : Heart W) → do_heartbeat send s ≡ (ok tt, beat s)
  unfolding do_heartbeat
  do_heartbeat_ok s = elim (Result-cases (send s.world).0) [
    | inl (x, e) ↦ ground arith
    | inr (x, e) ↦ ground arith
  ]

  beat-InBounds : (s : Heart W) → InBounds s → InBounds (beat s)
  unfolding do_heartbeat
  beat-InBounds s (lo, hi) = elim (Result-cases (send s.world).0) [
    | inl (x, e) ↦ (ground arith, ground arith)
    | inr (x, e) ↦ (ground arith, ground arith)
  ]

  heartbeats-InBounds : (n : ℕ) (s : Heart W) → InBounds s → InBounds (heartbeats n s)
  heartbeats-InBounds zero s b = b
  heartbeats-InBounds (suc n) s b = heartbeats-InBounds n (beat s) (beat-InBounds s b)

  Beats-InBounds :
      (python : Python) (wakes : List Wake) (s t : Heart W) (out : Beating)
      → InBounds s
      → Beats python wakes s out t
      → InBounds t
  Beats-InBounds python wakes s t polling b (none_stops, e) =
      subst InBounds (sym e) (heartbeats-InBounds (length wakes) s b)
  Beats-InBounds python wakes s t stopped b (before, wake, rest, split, none_stops, stop, e) =
      subst InBounds (sym e) (heartbeats-InBounds (length before) s b)

  -- One wake more, which does not end the loop.
  Beats-later :
      (python : Python) (wake : Wake) (wakes : List Wake) (s t : Heart W) (out : Beating)
      → stops python wake ≡ false
      → Beats python wakes (beat s) out t
      → Beats python (wake ∷ wakes) s out t
  Beats-later python wake wakes s t polling goes (none_stops, e) = ((goes, none_stops), e)
  Beats-later python wake wakes s t stopped goes (before, last, rest, split, none_stops, stop, e) =
      (wake ∷ before, last, rest, ap (wake ∷◌) split, (goes, none_stops), stop, e)

  beat_on-Beats :
      (python : Python) (wakes : List Wake) (s : Heart W)
      → (out : Beating) × (t : Heart W) × (beat_on python send wakes s ≡ (ok out, t))
        × Beats python wakes s out t
  unfolding beat_on beat_round ◌>>=◌
  beat_on-Beats python [] s = (polling, s, refl, (tt, refl))
  beat_on-Beats python (wake ∷ wakes) s = elim (Bool-cases (stops python wake)) [
    | inl e ↦ (stopped, s, ground arith, ([], wake, wakes, refl, tt, e, refl))
    | inr e ↦
        let (out, t, run, beats) = beat_on-Beats python wakes (beat s) in
        let sent = do_heartbeat_ok s in
        (out, t, rw e (rw sent run), Beats-later python wake wakes s t out e beats)
  ]

module _ {W : Type 0} (set_advertise_addr send : Exec W (Unit {0})) where
  -- Once the advertised address has been set, the thread raises nothing. It sends a heartbeat for each
  -- time that the poll ends, until the first that reads the byte of a stop, as Python 2 compares
  -- it; there its loop ends, and it polls on where there is none. A delay from one to 300 seconds
  -- stays one.
  pub run_heartbeater-Beats :
      (python : Python) (wakes : List Wake) (s : Heart W) (u : W)
      → InBounds s
      → set_advertise_addr s.world ≡ (ok tt, u)
      → (out : Beating) × (t : Heart W) × (run_heartbeater python set_advertise_addr send wakes s
          ≡ (ok out, t))
        × Beats send python wakes (record s { world = u }) out t
        × InBounds t
  unfolding run_heartbeater ◌>>=◌
  run_heartbeater-Beats python wakes s u b h =
      let (out, t, run, beats) = beat_on-Beats send python wakes (record s { world = u }) in
      (
        out,
        t,
        rw h run,
        beats,
        Beats-InBounds send python wakes (record s { world = u }) t out b beats,
      )

  python3-stops : (wake : Wake) → stops python3 wake ≡ false
  unfolding is_stop
  python3-stops Wake.timed_out = refl
  python3-stops (Wake.written byte) = refl

  python3_polling :
      (wakes : List Wake) (s t : Heart W) (out : Beating)
      → Beats send python3 wakes s out t
      → (out ≡ polling) × (t ≡ heartbeats send (length wakes) s)
  python3_polling wakes s t polling (none_stops, e) = (refl, e)
  python3_polling wakes s t stopped (before, wake, rest, split, none_stops, stop, e) =
      absurd (ground (arith, python3-stops wake))

  -- In Python 3 nothing that is written ends the thread, the byte of a stop either: once the
  -- advertised address has been set it sends a heartbeat each time that the poll ends, and polls on.
  pub run_heartbeater_python3 :
      (wakes : List Wake) (s : Heart W) (u : W)
      → set_advertise_addr s.world ≡ (ok tt, u)
      → run_heartbeater python3 set_advertise_addr send wakes s
        ≡ (ok polling, heartbeats send (length wakes) (record s { world = u }))
  unfolding run_heartbeater ◌>>=◌
  run_heartbeater_python3 wakes s u h =
      let from = record s { world = u } in
      let (out, t, run, beats) = beat_on-Beats send python3 wakes from in
      let (still, same) = python3_polling wakes from t out beats in
      rw h (run ∙ ap (λ o. (ok o, t)) still ∙ ap (λ v. (ok polling, v)) same)
