-- ===== src/Hardware/Disks/Wait.antt =====
-- What can leave the wait for the root disk.
use test_frerfhrebfd.Common.{
  ℕ, zero, suc, String, ◌≡◌, refl, true, false, ◌⊎◌, inl, inr, arith, Bool-cases,
}
use test_frerfhrebfd.Errors.Hierarchy.{ErrorClass, is_subclass}
use test_frerfhrebfd.Errors.Build.{Error}
use test_frerfhrebfd.Exec.{Result, ok, err, Exec, Result-cases, except, ◌>>=◌}
use test_frerfhrebfd.Hardware.Disks.{pause, try_attempts, wait_for_disks}

module _ {W : Type 0} (get_os_install_device : Exec W String) (sleep : W → W) where
  -- The end of a wait: every attempt has failed to find the device; or after some that did, one has
  -- found it, or has raised another exception.
  abbrev pub Waited : ℕ → W → Result (Unit {0}) × W → Type 0
  Waited zero s o = o ≡ (ok tt, s)
  Waited (suc attempts) s o =
      ((device : String) × ((get_os_install_device s).0 ≡ ok device)
        × (o ≡ (ok tt, (get_os_install_device s).1)))
      ⊎ (((e : Error) × ((get_os_install_device s).0 ≡ err e)
            × (is_subclass e.class ErrorClass.device_not_found ≡ false)
            × (o ≡ (err e, (get_os_install_device s).1)))
          ⊎ ((e : Error) × ((get_os_install_device s).0 ≡ err e)
              × (is_subclass e.class ErrorClass.device_not_found ≡ true)
              × Waited attempts
                  (pause get_os_install_device sleep attempts (get_os_install_device s).1) o))

  try_attempts_again :
      (attempts : ℕ) (s : W) (e : Error)
      → (get_os_install_device s).0 ≡ err e
      → is_subclass e.class ErrorClass.device_not_found ≡ true
      → try_attempts get_os_install_device sleep (suc attempts) s
        ≡ try_attempts get_os_install_device sleep attempts
            (pause get_os_install_device sleep attempts (get_os_install_device s).1)
  unfolding try_attempts except ◌>>=◌
  try_attempts_again attempts s e h b = rw (h, except) (rw (b, except) refl)

  try_attempts_found :
      (attempts : ℕ) (s : W) (device : String)
      → (get_os_install_device s).0 ≡ ok device
      → try_attempts get_os_install_device sleep (suc attempts) s
        ≡ (ok tt, (get_os_install_device s).1)
  unfolding try_attempts except ◌>>=◌
  try_attempts_found attempts s device h = ground arith

  try_attempts_raised :
      (attempts : ℕ) (s : W) (e : Error)
      → (get_os_install_device s).0 ≡ err e
      → is_subclass e.class ErrorClass.device_not_found ≡ false
      → try_attempts get_os_install_device sleep (suc attempts) s
        ≡ (err e, (get_os_install_device s).1)
  unfolding try_attempts except ◌>>=◌
  try_attempts_raised attempts s e h b = ground arith

  try_attempts_none : (s : W) → try_attempts get_os_install_device sleep 0 s ≡ (ok tt, s)
  unfolding try_attempts
  try_attempts_none s = refl

  try_attempts-Waited :
      (attempts : ℕ) (s : W)
      → Waited attempts s (try_attempts get_os_install_device sleep attempts s)
  try_attempts-Waited zero s = try_attempts_none s
  try_attempts-Waited (suc attempts) s = elim (Result-cases (get_os_install_device s).0) [
    | inl (device, h) ↦ inl (device, h, try_attempts_found attempts s device h)
    | inr (e, h) ↦ elim (Bool-cases (is_subclass e.class ErrorClass.device_not_found)) [
      | inl b ↦
          inr (
            inr
              (e, h, b, rw (try_attempts_again attempts s e h b) (try_attempts-Waited attempts _)))
      | inr b ↦ inr (inl (e, h, b, try_attempts_raised attempts s e h b))
    ]
  ]

  -- `wait_for_disks` makes at most the configured number of attempts, and a pause after each that
  -- does not find the device but the last. It ends with the first attempt that finds the device, and
  -- then succeeds, or that raises another exception than DeviceNotFound, which leaves it; if no
  -- attempt does, it succeeds all the same.
  pub wait_for_disks-Waited :
      (disk_wait_attempts : ℕ) (s : W)
      → Waited disk_wait_attempts s
          (wait_for_disks get_os_install_device sleep disk_wait_attempts s)
  unfolding wait_for_disks
  wait_for_disks-Waited zero s = refl
  wait_for_disks-Waited (suc attempts) s = try_attempts-Waited (suc attempts) s
