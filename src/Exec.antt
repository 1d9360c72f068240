-- ===== src/Exec.antt =====
-- Python functions that change a state and may raise. What was written before an exception stays
-- written, so the state comes back beside the error too.
pub mod Ensures
pub mod Fallible
use test_frerfhrebfd.Common.{if◌then◌else◌, ◌≡◌, refl, ◌⊎◌, inl, inr, arith}
use test_frerfhrebfd.Errors.Hierarchy.{ErrorClass, is_subclass}
use test_frerfhrebfd.Errors.Build.{Error}

pub data Result {ℓ} (A : Type ℓ) : Type ℓ where
  ok : A → Result A
  err : Error → Result A

abbrev pub Exec {ℓ} : Type ℓ → Type ℓ → Type ℓ
Exec S A = S → Result A × S

module _ {ℓ} {S A : Type ℓ} where
  abbrev pub pure : A → Exec S A
  pure a s = (ok a, s)

  abbrev pub raise : Error → Exec S A
  raise e s = (err e, s)

  abbrev pub gets : (S → A) → Exec S A
  gets f s = (ok (f s), s)

  -- the `except` clauses, once the body has run
  abbrev pub recover : Result A → (Error → Exec S A) → Exec S A
  recover (ok a) handle s = (ok a, s)
  recover (err e) handle s = handle e s

  unfoldable pub try_except : Exec S A → (Error → Exec S A) → Exec S A
  try_except m handle s = let (r, s') = m s in recover r handle s'

  -- `except C as e: handle`; any other exception goes on
  unfoldable pub except : ErrorClass → Exec S A → (Error → Exec S A) → Exec S A
  unfolding try_except
  except c m handle = try_except m (λ e. if is_subclass e.class c then handle e else raise e)

pub Result-cases {ℓ} :
    {A : Type ℓ} (r : Result A) → ((a : A) × (r ≡ ok a)) ⊎ ((e : Error) × (r ≡ err e))
Result-cases (ok a) = inl (a, refl)
Result-cases (err e) = inr (e, refl)

abbrev pub modify : {S : Type 0} → (S → S) → Exec S (Unit {0})
modify f s = (ok tt, f s)

module _ {ℓ} {S A B : Type ℓ} where
  -- what follows a step that has been made
  abbrev pub continue : Result A → (A → Exec S B) → Exec S B
  continue (ok a) f s = f a s
  continue (err e) f s = (err e, s)

  infixl 10 ◌>>=◌ ◌>>◌
  unfoldable pub ◌>>=◌ : Exec S A → (A → Exec S B) → Exec S B
  ◌>>=◌ m f s = let (r, s') = m s in continue r f s'

  abbrev pub ◌>>◌ : Exec S A → Exec S B → Exec S B
  m >> n = m >>= λ _. n

  continue-ok :
      (r : Result A) (u : S) (f : A → Exec S B) (b : B) (t : S)
      → continue r f u ≡ (ok b, t)
      → (a : A) × (r ≡ ok a) × (f a u ≡ (ok b, t))
  continue-ok (ok a) u f b t h = (a, refl, h)
  continue-ok (err e) u f b t h = absurd (ground arith)

  continue-err :
      (r : Result A) (u : S) (f : A → Exec S B) (e : Error) (t : S)
      → continue r f u ≡ (err e, t)
      → ((r ≡ err e) × (u ≡ t)) ⊎ ((a : A) × (r ≡ ok a) × (f a u ≡ (err e, t)))
  continue-err (ok a) u f e t h = inr (a, refl, h)
  continue-err (err x) u f e t h = inl (ground arith, ground arith)

  -- A successful bind is two successful steps.
  pub >>=-ok :
      (m : Exec S A) (f : A → Exec S B) (s : S) (b : B) (t : S)
      → (m >>= f) s ≡ (ok b, t)
      → (a : A) × (u : S) × (m s ≡ (ok a, u)) × (f a u ≡ (ok b, t))
  unfolding ◌>>=◌
  >>=-ok m f s b t h =
      let (a, e, k) = continue-ok (m s).0 (m s).1 f b t h in (a, (m s).1, ground arith, k)

  -- A failed bind failed in the first step or in the second.
  pub >>=-err :
      (m : Exec S A) (f : A → Exec S B) (s : S) (e : Error) (t : S)
      → (m >>= f) s ≡ (err e, t)
      → (m s ≡ (err e, t)) ⊎ ((a : A) × (u : S) × (m s ≡ (ok a, u)) × (f a u ≡ (err e, t)))
  unfolding ◌>>=◌
  >>=-err m f s e t h = elim (continue-err (m s).0 (m s).1 f e t h) [
    | inl (x, y) ↦ inl (ground arith)
    | inr (a, x, k) ↦ inr (a, (m s).1, ground arith, k)
  ]

-- what is raised last goes on
abbrev after_finally : {A : Type 0} → Result A → Result (Unit {0}) → Result A
after_finally r (ok u) = r
after_finally r (err e) = err e

module _ {S A : Type 0} where
  -- `try: m finally: cleanup`
  unfoldable pub try_finally : Exec S A → Exec S (Unit {0}) → Exec S A
  try_finally m cleanup s =
      let (r, s') = m s in let (q, s'') = cleanup s' in (after_finally r q, s'')
