-- ===== src/Hardware/Disks/Guess.antt =====
-- Which disk is taken for the root disk without hints.
use test_frerfhrebfd.Common.{
  ℕ, ◌≤◌, ◌<◌, ◌≡◌, refl, true, false, Option, some, List, [], ◌∷◌, ◌⊎◌, inl, inr, arith, All,
  All-imp, Among, All-Among_self, leb, Bool-cases,
}
use test_frerfhrebfd.Exec.{Result, ok, err}
use test_frerfhrebfd.Hardware.Types.{BlockDevice}
use test_frerfhrebfd.Hardware.Sorting.{sorted, IsSorted, sorted-IsSorted, All-sorted, All-of_sorted}
use test_frerfhrebfd.Hardware.Disks.{
  size_order, too_small, first_large, no_device, guess_sorted, guess_root_disk,
}

module _ (least : ℕ) where
  too_small-All :
      (l : List BlockDevice)
      → IsSorted size_order l
      → too_small least l ≡ true
      → All (λ d. d.size < least) l
  unfolding too_small
  too_small-All [] s h = tt
  too_small-All (d ∷ []) s h = (ground arith, tt)
  too_small-All (d ∷ e ∷ l) s h =
      let below = too_small-All (e ∷ l) s.1 h in (ground (arith, s.0.0, below.0), below)

  -- The smallest of those that are large enough.
  abbrev pub IsLeast : List BlockDevice → BlockDevice → Type 0
  IsLeast l d = (least ≤ d.size) × All (λ x. (x.size < least) ⊎ (d.size ≤ x.size)) l

  first_large-IsLeast :
      (Q : BlockDevice → Type 0) (l : List BlockDevice)
      → IsSorted size_order l
      → All Q l
      → too_small least l ≡ false
      → (d : BlockDevice) × (first_large least l ≡ some d) × Q d × IsLeast l d
  unfolding too_small first_large
  first_large-IsLeast Q [] s q h = absurd (ground arith)
  first_large-IsLeast Q (d ∷ []) s q h = (d, ground arith, q.0, (ground arith, (ground arith, tt)))
  first_large-IsLeast Q (d ∷ e ∷ l) s q h = elim (Bool-cases (leb least d.size)) [
    | inl b ↦ (
      d,
      rw b refl,
      q.0,
      (
        ground arith,
        (
          inr (ground arith),
          All-imp (λ x. size_order d x ≡ true) (λ x. (x.size < least) ⊎ (d.size ≤ x.size))
              (λ x k. inr (ground arith)) (e ∷ l) s.0,
        ),
      ),
    )
    | inr b ↦
        let (x, f, r, i) = first_large-IsLeast Q (e ∷ l) s.1 q.1 h in
        (x, rw b f, r, (i.0, (inl (ground arith), i.1)))
  ]

  abbrev pub Guessed : List BlockDevice → Result (Option BlockDevice) → Type 0
  Guessed l r =
      ((d : BlockDevice) × (r ≡ ok (some d)) × Among l d × IsLeast l d)
      ⊎ ((r ≡ err (no_device least)) × All (λ d. d.size < least) l)

  guess_sorted-Guessed :
      (l devices : List BlockDevice)
      → IsSorted size_order l
      → All (Among devices) l
      → ((d : BlockDevice) × (guess_sorted least l ≡ ok (some d)) × Among devices d × IsLeast l d)
        ⊎ ((guess_sorted least l ≡ err (no_device least)) × All (λ d. d.size < least) l)
  unfolding guess_sorted
  guess_sorted-Guessed l devices s a = elim (Bool-cases (too_small least l)) [
    | inl b ↦ inr (rw b refl, too_small-All l s b)
    | inr b ↦
        let (d, f, m, i) = first_large-IsLeast (Among devices) l s a b in
        inl (d, rw b (rw f refl), m, i)
  ]

  -- The guess is the smallest of the devices that are large enough; it fails with DeviceNotFound if
  -- and only if all are too small, and there is no other outcome.
  pub guess_root_disk-Guessed :
      (block_devices : List BlockDevice)
      → Guessed block_devices (guess_root_disk block_devices least)
  unfolding guess_root_disk
  guess_root_disk-Guessed block_devices =
      elim (guess_sorted-Guessed (sorted size_order block_devices) block_devices
        (sorted-IsSorted size_order (λ x y h. ground arith) (λ x y z h k. ground arith)
          block_devices)
        (All-sorted size_order (Among block_devices) block_devices
          (All-Among_self block_devices))) [
            | inl (d, f, m, i) ↦ inl (
              d,
              f,
              m,
              (
                i.0,
                All-of_sorted size_order (λ x. (x.size < least) ⊎ (d.size ≤ x.size)) block_devices
                    i.1,
              ),
            )
            | inr (f, a) ↦ inr (f, All-of_sorted size_order (λ d. d.size < least) block_devices a)
          ]
