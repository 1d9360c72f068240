-- ===== src/IronicPythonAgent/Interfaces.antt =====
-- agent.py: `_wait_for_interface`.
pub mod Waited
use test_frerfhrebfd.Common.{
  ℕ, zero, suc, ◌+◌, String, Bool, true, false, Option, none, some, List, [], ◌∷◌, ltb,
  if◌then◌else◌,
}
use test_frerfhrebfd.Exec.{Result, ok, err, Exec, pure, ◌>>=◌}
use test_frerfhrebfd.IronicPythonAgent.{Surroundings, given}

abbrev pub network_wait_timeout : ℕ
network_wait_timeout = 60

abbrev pub network_wait_retry : ℕ
network_wait_retry = 5

-- How the wait ends. `WaitOutcome.unfinished` is no end: the rounds of the model have run out.
pub data WaitOutcome : Type 0 where
  up late unfinished : WaitOutcome

-- `any(ifc.mac_address for ifc in interfaces)`
abbrev pub any_address : List (Option String) → Bool
any_address [] = false
any_address (mac_address ∷ interfaces) =
    let rest = any_address interfaces in if given mac_address then true else rest

module _ {W : Type 0} (around : Surroundings W) where
  -- The end of a round: an interface ends the wait, and otherwise it goes on after a pause.
  unfoldable pub next_round : Bool → Exec W WaitOutcome → Exec W WaitOutcome
  next_round is_up rest w =
      if is_up then (ok WaitOutcome.up, w) else rest (around.sleep network_wait_retry w)

  unfoldable pub look_once : Exec W WaitOutcome → Exec W WaitOutcome
  unfolding next_round ◌>>=◌
  look_once rest = do
    interfaces ← around.list_network_interfaces
    next_round (any_address interfaces) rest

  -- The loop, with the rounds that the model has left.
  unfoldable pub wait_until : ℕ → ℕ → Exec W WaitOutcome
  unfolding look_once
  wait_until zero wait_till w = (ok WaitOutcome.unfinished, w)
  wait_until (suc rounds) wait_till w =
      let rest = wait_until rounds wait_till in
      if ltb (around.time w) wait_till then look_once rest w else (ok WaitOutcome.late, w)

  -- More than sixty seconds of pauses of five seconds do not pass.
  abbrev pub most_rounds : ℕ
  most_rounds = 13

  -- `_wait_for_interface`
  unfoldable pub wait_for_interface : Exec W WaitOutcome
  unfolding wait_until
  wait_for_interface w = wait_until most_rounds (around.time w + network_wait_timeout) w
