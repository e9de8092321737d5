-- ===== src/Prelude/Outcome.antt =====
-- Functions that return or raise, without a state.
use mathlib.Core.Path.{◌≡◌, refl, subst}
use mathlib.Core.Bool.{Bool, true, false}
use mathlib.Core.Option.{Option, none, some}
use native.Mathlib.Omega.{arith}
use lifeos_platform.Prelude.Exec.{Result, ok, err}

module _ {E A B : Type 0} where
  infixl 5 ◌>>=◌ ◌>>◌
  unfoldable pub ◌>>=◌ : Result E A → (A → Result E B) → Result E B
  ok a >>= f = f a
  err e >>= f = err e

  abbrev pub ◌>>◌ : Result E A → Result E B → Result E B
  m >> k = m >>= λ _. k

  -- A sequence returns exactly if its first part returns and then its second part does.
  pub bind-returns :
      (m : Result E A) (f : A → Result E B) (b : B)
      → (m >>= f) ≡ ok b
      → (a : A) × (m ≡ ok a) × (f a ≡ ok b)
  unfolding ◌>>=◌
  bind-returns (ok a) f b h = (a, refl, h)
  bind-returns (err e) f b h = absurd (ground arith)

module _ {E : Type 0} where
  -- `if not test: raise e`
  unfoldable pub require : Bool → E → Result E (Unit {0})
  require true e = ok tt
  require false e = err e

  pub require-returns : (b : Bool) (e : E) (u : Unit {0}) → require b e ≡ ok u → b ≡ true
  unfolding require
  require-returns true e u h = refl
  require-returns false e u h = absurd (ground arith)

module _ {E A : Type 0} where
  unfoldable pub expect : Option A → E → Result E A
  expect none e = err e
  expect (some a) e = ok a

  pub expect-returns : (o : Option A) (e : E) (a : A) → expect o e ≡ ok a → o ≡ some a
  unfolding expect
  expect-returns none e a h = absurd (ground arith)
  expect-returns (some b) e a h = ground arith

-- Whatever is returned satisfies `Q`.
pub record Ensures {E A : Type 0} (Q : A → Type 0) (m : Result E A) : Type 0 where
  pub holds : (a : A) → m ≡ ok a → Q a

module _ {E A B : Type 0} {Q : B → Type 0} where
  pub >>=-Ensures :
      (m : Result E A) (f : A → Result E B)
      → ((a : A) → m ≡ ok a → Ensures Q (f a))
      → Ensures Q (m >>= f)
  >>=-Ensures m f s = record {
    holds = λ b h. let (a, e, k) = bind-returns m f b h in (s a e).holds b k;
  }

module _ {E A : Type 0} {Q : A → Type 0} where
  pub ok-Ensures : (a : A) → Q a → Ensures {E = E} Q (ok a)
  ok-Ensures a q = record { holds = λ b h. subst Q (ground arith) q }
