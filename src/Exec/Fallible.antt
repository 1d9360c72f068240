-- ===== src/Exec/Fallible.antt =====
-- Results without a state: functions that may raise and change nothing.
use test_frerfhrebfd.Common.{Bool, ◌≡◌, refl, arith, if◌then◌else◌}
use test_frerfhrebfd.Errors.Build.{Error}
use test_frerfhrebfd.Exec.{Result, ok, err}

module _ {ℓ κ} {A : Type ℓ} {B : Type κ} where
  infixl 10 ◌>>=◌
  abbrev pub ◌>>=◌ : Result A → (A → Result B) → Result B
  ok a >>= f = f a
  err e >>= f = err e

  -- A successful bind is two successful steps.
  pub >>=-ok :
      (m : Result A) (f : A → Result B) (b : B)
      → (m >>= f) ≡ ok b
      → (a : A) × (m ≡ ok a) × (f a ≡ ok b)
  >>=-ok (ok a) f b h = (a, refl, h)
  >>=-ok (err e) f b h = absurd (ground arith)

module _ {ℓ} {A : Type ℓ} where
  -- `except` clauses that raise another exception: `handle` says which one, if they match.
  abbrev pub translate : (Error → Bool) → (Error → Error) → Result A → Result A
  translate caught handle (ok a) = ok a
  translate caught handle (err e) = if caught e then err (handle e) else err e

  pub translate-ok :
      (caught : Error → Bool) (handle : Error → Error) (r : Result A) (a : A)
      → translate caught handle r ≡ ok a
      → r ≡ ok a
  translate-ok caught handle (ok b) a h = h
  translate-ok caught handle (err e) a h = absurd (ground arith)
