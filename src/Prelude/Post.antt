-- ===== src/Prelude/Post.antt =====
-- What holds after a method of `Exec`: `Q` of the result and the world where it returns, `R` of the
-- world where it raises. One rule for each way to build a method.
use mathlib.Core.Path.{◌≡◌, refl}
use mathlib.Core.Bool.{Bool, true, false}
use lifeos_platform.Prelude.Tests.{if◌then◌else◌}
use lifeos_platform.Prelude.Exec.{
  Result, ok, err, Exec, pure, raise, gets, handled, continue, try_except, raise_if, attempt, ◌>>=◌,
}

module _ {S E A : Type 0} where
  abbrev pub After : (A → S → Type 0) → (S → Type 0) → Result E A × S → Type 0
  After Q R (ok a, t) = Q a t
  After Q R (err e, t) = R t

  -- A record, so that `Q` and `R` can be read off a statement.
  pub record Post (Q : A → S → Type 0) (R : S → Type 0) (p : Result E A × S) : Type 0 where
    pub holds : After Q R p

module _ {S E A : Type 0} {Q Q' : A → S → Type 0} {R R' : S → Type 0} where
  weaken-After :
      (p : Result E A × S)
      → After Q R p
      → ((a : A) (t : S) → Q a t → Q' a t)
      → ((t : S) → R t → R' t)
      → After Q' R' p
  weaken-After (ok a, t) h q r = q a t h
  weaken-After (err e, t) h q r = r t h

  pub Post-weaken :
      {p : Result E A × S}
      → Post Q R p
      → ((a : A) (t : S) → Q a t → Q' a t)
      → ((t : S) → R t → R' t)
      → Post Q' R' p
  Post-weaken {p} h q r = record { holds = weaken-After p h.holds q r }

module _ {S E A : Type 0} {Q : A → S → Type 0} {R R' : S → Type 0} where
  handled-After :
      (p : Result E A × S) (handler : E → Exec S E A)
      → After Q R' p
      → ((e : E) (t : S) → R' t → Post Q R (handler e t))
      → After Q R (handled p.0 handler p.1)
  handled-After (ok a, t) handler h k = h
  handled-After (err e, t) handler h k = (k e t h).holds

  pub try_except-Post :
      (m : Exec S E A) (handler : E → Exec S E A) (s : S)
      → Post Q R' (m s)
      → ((e : E) (t : S) → R' t → Post Q R (handler e t))
      → Post Q R (try_except m handler s)
  unfolding try_except
  try_except-Post m handler s h k = record { holds = handled-After (m s) handler h.holds k }

module _ {S E A B : Type 0} {Q : B → S → Type 0} {R : S → Type 0} {Q' : A → S → Type 0} where
  continue-After :
      (p : Result E A × S) (f : A → Exec S E B)
      → After Q' R p
      → ((a : A) (t : S) → Q' a t → Post Q R (f a t))
      → After Q R (continue p.0 f p.1)
  continue-After (ok a, t) f h k = (k a t h).holds
  continue-After (err e, t) f h k = h

  pub >>=-Post :
      (m : Exec S E A) (f : A → Exec S E B) (s : S)
      → Post Q' R (m s)
      → ((a : A) (t : S) → Q' a t → Post Q R (f a t))
      → Post Q R ((m >>= f) s)
  unfolding ◌>>=◌
  >>=-Post m f s h k = record { holds = continue-After (m s) f h.holds k }

module _ {S E A B : Type 0} {Q : B → S → Type 0} {R : S → Type 0} where
  pub gets-Post :
      (g : S → A) (f : A → Exec S E B) (s : S) → Post Q R (f (g s) s) → Post Q R ((gets g >>= f) s)
  unfolding ◌>>=◌
  gets-Post g f s h = record { holds = h.holds }

module _ {S E A : Type 0} {R : S → Type 0} where
  pub attempt-Post :
      (m : Exec S E A) (s : S)
      → Post (λ (_ : A) t. R t) R (m s)
      → Post (λ (_ : Result E A) t. R t) R (attempt m s)
  unfolding attempt
  attempt-Post m s h = record { holds = either (m s) h.holds }
    where
      either : (p : Result E A × S) → After (λ (_ : A) t. R t) R p → R p.1
      either (ok a, t) h = h
      either (err e, t) h = h

module _ {S E : Type 0} {R : S → Type 0} where
  pub raise_if-Post :
      (b : Bool) (e : E) (s : S)
      → R s
      → Post (λ (_ : Unit {0}) t. (b ≡ false) × (t ≡ s)) R (raise_if b e s)
  unfolding raise_if
  raise_if-Post true e s h = record { holds = h }
  raise_if-Post false e s h = record { holds = (refl, refl) }

module _ {S E A : Type 0} {Q : A → S → Type 0} {R : S → Type 0} where
  -- A guard, and what follows it in the same world.
  pub guard-Post :
      (b : Bool) (e : E) (f : Unit {0} → Exec S E A) (s : S)
      → R s
      → (b ≡ false → Post Q R (f tt s))
      → Post Q R ((raise_if b e >>= f) s)
  unfolding raise_if ◌>>=◌
  guard-Post true e f s r k = record { holds = r }
  guard-Post false e f s r k = record { holds = (k refl).holds }

  pub pure-Post : (a : A) (s : S) → Q a s → Post {E = E} Q R (pure a s)
  pure-Post a s h = record { holds = h }

  pub raise-Post : (e : E) (s : S) → R s → Post Q R (raise e s)
  raise-Post e s h = record { holds = h }

  pub if-Post :
      (b : Bool) (m n : Exec S E A) (s : S)
      → (b ≡ true → Post Q R (m s))
      → (b ≡ false → Post Q R (n s))
      → Post Q R ((if b then m else n) s)
  if-Post true m n s h k = h refl
  if-Post false m n s h k = k refl

  -- What a returning run shows.
  pub Post_ok : {p : Result E A × S} {a : A} {t : S} → Post Q R p → p ≡ (ok a, t) → Q a t
  Post_ok {p} {a} {t} h e = (rw e at h).holds
