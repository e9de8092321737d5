-- ===== src/Prelude/Exec.antt =====
-- Methods that change the world and may raise. What was written before a raise stays written, so
-- the state comes back beside the error too.
use mathlib.Core.Path.{◌≡◌, refl}
use mathlib.Core.Bool.{Bool, true, false}
use native.Mathlib.Omega.{arith}

pub data Result (E A : Type 0) : Type 0 where
  ok : A → Result E A
  err : E → Result E A

abbrev pub Exec : Type 0 → Type 0 → Type 0 → Type 0
Exec S E A = S → Result E A × S

module _ {S E A : Type 0} where
  abbrev pub pure : A → Exec S E A
  pure a s = (ok a, s)

  abbrev pub raise : E → Exec S E A
  raise e s = (err e, s)

  abbrev pub gets : (S → A) → Exec S E A
  gets f s = (ok (f s), s)

  abbrev pub handled : Result E A → (E → Exec S E A) → Exec S E A
  handled (ok a) f s = (ok a, s)
  handled (err e) f s = f e s

  -- `try: m` / `except Exception as exc: handler`
  unfoldable pub try_except : Exec S E A → (E → Exec S E A) → Exec S E A
  try_except m handler s = let (r, s') = m s in handled r handler s'

module _ {S E : Type 0} where
  -- `if test: raise e`
  unfoldable pub raise_if : Bool → E → Exec S E (Unit {0})
  raise_if true e s = (err e, s)
  raise_if false e s = (ok tt, s)

module _ {S E A B : Type 0} where
  abbrev pub continue : Result E A → (A → Exec S E B) → Exec S E B
  continue (ok a) f s = f a s
  continue (err e) f s = (err e, s)

  infixl 5 ◌>>=◌ ◌>>◌
  unfoldable pub ◌>>=◌ : Exec S E A → (A → Exec S E B) → Exec S E B
  ◌>>=◌ m f s = let (r, s') = m s in continue r f s'

  abbrev pub ◌>>◌ : Exec S E A → Exec S E B → Exec S E B
  m >> k = m >>= λ _. k

  -- A sequence returns exactly if its first part returns and then its second part does.
  pub Returns-bind :
      (m : Exec S E A) (f : A → Exec S E B) (s : S) {b : B} {u : S}
      → (m >>= f) s ≡ (ok b, u)
      → (a : A) × (t : S) × (m s ≡ (ok a, t)) × (f a t ≡ (ok b, u))
  unfolding ◌>>=◌
  Returns-bind m f s h = split (m s) refl h
    where
      split :
          {b : B} {u : S} (p : Result E A × S)
          → m s ≡ p
          → continue p.0 f p.1 ≡ (ok b, u)
          → (a : A) × (t : S) × (m s ≡ (ok a, t)) × (f a t ≡ (ok b, u))
      split (ok a, t) e g = (a, t, e, g)
      split (err x, t) e g = ground arith

module _ {S E : Type 0} where
  pub raise_if-returns :
      (b : Bool) (e : E) (s t : S) (a : Unit {0})
      → raise_if b e s ≡ (ok a, t)
      → (b ≡ false) × (t ≡ s)
  unfolding raise_if
  raise_if-returns true e s t a h = ground arith
  raise_if-returns false e s t a h = ground arith

module _ {S E A : Type 0} where
  -- The outcome of `m` as a value: what an `except` clause sees beside the locals.
  unfoldable pub attempt : Exec S E A → Exec S E (Result E A)
  attempt m s = let (r, s') = m s in (ok r, s')
