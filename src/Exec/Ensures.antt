-- ===== src/Exec/Ensures.antt =====
-- What a function that succeeds has done, by the way it is composed.
use test_frerfhrebfd.Common.{
  ◌≡◌, refl, Bool, true, false, inl, inr, arith, Bool-cases, if◌then◌else◌,
}
use test_frerfhrebfd.Errors.Hierarchy.{ErrorClass, is_subclass}
use test_frerfhrebfd.Errors.Build.{Error}
use test_frerfhrebfd.Exec.{
  ok, err, Exec, Result-cases, try_except, try_finally, except, modify, ◌>>=◌, >>=-ok,
}

module _ {S A : Type 0} where
  -- If `m` succeeds from `s`, its value and its final state are in `P`.
  pub record Ensures (m : Exec S A) (P : A → S → Type 0) (s : S) : Type 0 where
    pub ensured : (a : A) (t : S) → m s ≡ (ok a, t) → P a t

module _ {S A : Type 0} {P : A → S → Type 0} where
  pub Ensures-pure : {a : A} {s : S} → P a s → Ensures (λ (u : S). (ok a, u)) P s
  Ensures-pure {a} {s} p = record { ensured = λ b t h. ground (arith, p) }

  pub Ensures-raise : {e : Error} {s : S} → Ensures (λ (u : S). (err e, u)) P s
  Ensures-raise = record { ensured = λ b t h. absurd (ground arith) }

  pub Ensures-call :
      {m : Exec S A} {s : S} → ((a : A) (t : S) → m s ≡ (ok a, t) → P a t) → Ensures m P s
  Ensures-call f = record { ensured = f }

  pub Ensures-if :
      (b : Bool) {m n : Exec S A} {s : S}
      → (b ≡ true → Ensures m P s)
      → (b ≡ false → Ensures n P s)
      → Ensures (if b then m else n) P s
  Ensures-if true f g = f refl
  Ensures-if false f g = g refl

  pub Ensures-except :
      (c : ErrorClass) (m : Exec S A) (handle : Error → Exec S A) {s : S}
      → Ensures m P s
      → ((e : Error) (u : S)
          → m s ≡ (err e, u)
          → is_subclass e.class c ≡ true
          → Ensures (handle e) P u)
      → Ensures (except c m handle) P s
  unfolding except
  Ensures-except c m handle {s} f g = record {
    ensured = λ a t h. elim (Result-cases (m s).0) [
      | inl (x, e) ↦ f.ensured a t (ground arith)
      | inr (x, e) ↦ elim (Bool-cases (is_subclass x.class c)) [
        | inl b ↦ (g x (m s).1 (ground arith) b).ensured a t (ground arith)
        | inr b ↦ absurd (ground arith)
      ]
    ];
  }

  pub Ensures-try :
      (m : Exec S A) (handle : Error → Exec S A) {s : S}
      → Ensures m P s
      → ((e : Error) (u : S) → m s ≡ (err e, u) → Ensures (handle e) P u)
      → Ensures (try_except m handle) P s
  unfolding try_except
  Ensures-try m handle {s} f g = record {
    ensured = λ a t h. elim (Result-cases (m s).0) [
      | inl (x, e) ↦ f.ensured a t (ground arith)
      | inr (x, e) ↦ (g x (m s).1 (ground arith)).ensured a t (ground arith)
    ];
  }

  pub Ensures-bind :
      {B : Type 0} (m : Exec S B) (f : B → Exec S A) {s : S}
      → ((b : B) (u : S) → m s ≡ (ok b, u) → Ensures (f b) P u)
      → Ensures (m >>= f) P s
  Ensures-bind m f {s} k = record {
    ensured = λ a t h. let (b, u, e, r) = >>=-ok m f s a t h in (k b u e).ensured a t r;
  }

module _ {S A : Type 0} {P : A → S → Type 0} where
  pub Ensures-gets :
      {B : Type 0} (f : S → B) (k : B → Exec S A) {s : S}
      → Ensures (k (f s)) P s
      → Ensures ((λ u. (ok (f u), u)) >>= k) P s
  unfolding ◌>>=◌
  Ensures-gets f k x = record { ensured = x.ensured }

module _ {S A : Type 0} where
  pub Ensures-imp :
      {P Q : A → S → Type 0} {m : Exec S A} {s : S}
      → Ensures m P s
      → ((a : A) (t : S) → P a t → Q a t)
      → Ensures m Q s
  Ensures-imp f g = record { ensured = λ a t h. g a t (f.ensured a t h) }

module _ {S A : Type 0} {P : A → S → Type 0} where
  pub Ensures-finally :
      (m : Exec S A) (cleanup : Exec S (Unit {0})) {s : S}
      → ((a : A) (u : S) → m s ≡ (ok a, u) → Ensures cleanup (λ x. P a) u)
      → Ensures (try_finally m cleanup) P s
  unfolding try_finally
  Ensures-finally m cleanup {s} f = record {
    ensured = λ a t h. elim (Result-cases (m s).0) [
      | inl (x, e) ↦ elim (Result-cases (cleanup (m s).1).0) [
        | inl (y, k) ↦ (f a (m s).1 (ground arith)).ensured y t (ground arith)
        | inr (y, k) ↦ absurd (ground arith)
      ]
      | inr (x, e) ↦ elim (Result-cases (cleanup (m s).1).0) [
        | inl (y, k) ↦ absurd (ground arith)
        | inr (y, k) ↦ absurd (ground arith)
      ]
    ];
  }

module _ {S : Type 0} where
  pub Ensures-modify :
      {P : Unit {0} → S → Type 0} (f : S → S) {s : S} → P tt (f s) → Ensures (modify f) P s
  Ensures-modify f p = record { ensured = λ a t h. ground (arith, p) }

  pub Ensures-modify_then :
      {A : Type 0} {P : A → S → Type 0} (f : S → S) (k : Unit {0} → Exec S A) {s : S}
      → Ensures (k tt) P (f s)
      → Ensures (modify f >>= k) P s
  unfolding ◌>>=◌
  Ensures-modify_then f k x = record { ensured = x.ensured }
