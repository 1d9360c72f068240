-- ===== src/IronicPythonAgent/Interfaces/Waited.antt =====
-- The wait for an interface ends.
use test_frerfhrebfd.Common.{
  ℕ, zero, suc, ◌+◌, ◌*◌, ◌≤◌, String, true, Option, List, ltb, if◌then◌else◌, ◌≡◌, inl, inr, arith,
  Bool-cases,
}
use test_frerfhrebfd.Exec.{ok, Exec}
use test_frerfhrebfd.Exec.Ensures.{Ensures, Ensures-call, Ensures-bind}
use test_frerfhrebfd.IronicPythonAgent.{Surroundings}
use test_frerfhrebfd.IronicPythonAgent.Interfaces.{
  network_wait_timeout, network_wait_retry, WaitOutcome, up, late, unfinished, any_address,
  next_round, look_once, wait_until, wait_for_interface,
}

module _ {W : Type 0} (around : Surroundings W) where
  -- A pause takes the time that it says, at least.
  abbrev pub Sleeps : Type 0
  Sleeps = (seconds : ℕ) (w : W) → around.time w + seconds ≤ around.time (around.sleep seconds w)

  -- The clock does not go back while the interfaces are listed.
  abbrev pub Advances : Type 0
  Advances =
      (interfaces : List (Option String)) (w t : W)
      → around.list_network_interfaces w ≡ (ok interfaces, t)
      → around.time w ≤ around.time t

  -- How the wait has ended: an interface had an address, or the time has passed.
  abbrev pub Ended : ℕ → WaitOutcome → W → Type 0
  Ended wait_till up t =
      (interfaces : List (Option String)) × (w : W) × (around.list_network_interfaces w
        ≡ (ok interfaces, t))
      × (any_address interfaces ≡ true)
  Ended wait_till late t = wait_till ≤ around.time t
  Ended wait_till unfinished t = ⊥

  next_round-Ended :
      (wait_till : ℕ) (interfaces : List (Option String)) (rest : Exec W WaitOutcome) (w u : W)
      → around.list_network_interfaces w ≡ (ok interfaces, u)
      → Ensures rest (Ended wait_till) (around.sleep network_wait_retry u)
      → Ensures (next_round around (any_address interfaces) rest) (Ended wait_till) u
  unfolding next_round
  next_round-Ended wait_till interfaces rest w u h r = Ensures-call (λ outcome t k.
      elim (Bool-cases (any_address interfaces)) [
        | inl b ↦
            let is_up : outcome ≡ up = ground arith in
            let same : u ≡ t = ground arith in rw (is_up, ← same) (interfaces, w, h, b)
        | inr b ↦ r.ensured outcome t (ground arith)
      ])

  late-Ended :
      (rest : Exec W WaitOutcome) (wait_till : ℕ) (w : W)
      → (ltb (around.time w) wait_till ≡ true → Ensures rest (Ended wait_till) w)
      → Ensures
          (λ w. if ltb (around.time w) wait_till then rest w else (ok late, w))
          (Ended wait_till)
          w
  late-Ended rest wait_till w r = Ensures-call (λ outcome t k.
      elim (Bool-cases (ltb (around.time w) wait_till)) [
        | inl b ↦ (r b).ensured outcome t (ground arith)
        | inr b ↦
            let is_late : outcome ≡ late = ground arith in
            let same : w ≡ t = ground arith in
            let passed : wait_till ≤ around.time w = ground arith in rw (is_late, ← same) passed
      ])

  module _ (sleeps : Sleeps) (advances : Advances) where
    wait_until-Ended :
        (rounds wait_till : ℕ) (w : W)
        → wait_till ≤ around.time w + rounds * network_wait_retry
        → Ensures (wait_until around (suc rounds) wait_till) (Ended wait_till) w
    unfolding wait_until look_once
    wait_until-Ended zero wait_till w h =
        late-Ended (look_once around (wait_until around zero wait_till)) wait_till w
          (λ b. absurd (ground arith))
    wait_until-Ended (suc rounds) wait_till w h =
        late-Ended (look_once around (wait_until around (suc rounds) wait_till)) wait_till w (λ b.
          Ensures-bind around.list_network_interfaces _ (λ interfaces u k.
            let later = advances interfaces w u k in
            let slept = sleeps network_wait_retry u in
            next_round-Ended wait_till interfaces (wait_until around (suc rounds) wait_till) w u k (
              wait_until-Ended rounds wait_till (around.sleep network_wait_retry u) (omega arith))))

    -- Where a pause takes its time and the clock does not go back while the interfaces are listed,
    -- `_wait_for_interface` comes to an end of its own within thirteen looks at the clock, if it
    -- does not raise: an interface that was listed has an address, or sixty seconds have passed.
    pub wait_for_interface-Ended :
        (outcome : WaitOutcome) (s t : W)
        → wait_for_interface around s ≡ (ok outcome, t)
        → Ended (around.time s + network_wait_timeout) outcome t
    unfolding wait_for_interface
    wait_for_interface-Ended outcome s t h =
        (wait_until-Ended 12 (around.time s + network_wait_timeout) s (omega arith)).ensured outcome
          t h
