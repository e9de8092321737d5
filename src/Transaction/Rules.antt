-- ===== src/Transaction/Rules.antt =====
-- What each helper of the controller does to the world, for any behaviour of the system.
use lifeos_platform.Prelude.{
  ℕ, String, ◌≡◌, refl, sym, ◌∙◌, Bool, true, false, Option, none, some, if◌then◌else◌,
}
use lifeos_platform.Prelude.Exec.{
  Result, ok, err, pure, raise, gets, handled, continue, try_except, raise_if, attempt, ◌>>=◌,
}
use mathlib.Core.Path.{subst}
use lifeos_platform.Prelude.Post.{After, Post, >>=-Post}
use lifeos_platform.Transaction.World.{
  Platform, Outcome, done, refused, late, File, Manifest, World, Error, Method, carry_out,
  exit_status, called, effect, now, run, read,
}
use lifeos_platform.Transaction.Files.{
  found_manifest, dir, load, systemctl, sha256, with_temporary, replace_file,
}

-- What the invariants speak of: the directories, the manifests and the locks.
pub record Store : Type 0 where
  pub txdirs : String → Bool
  pub manifests : String → Option Manifest
  pub locks : String → Bool

abbrev pub store : World → Store
store w = record { txdirs = w.txdirs; manifests = w.manifests; locks = w.locks }

-- A method that leaves them alone, whether it returns or raises.
pub record Quiet {A : Type 0} (m : Method A) : Type 0 where
  pub at : (w : World) → store (m w).1 ≡ store w

module _ {A : Type 0} where
  pub Quiet-pure : (a : A) → Quiet (pure a)
  Quiet-pure a = record { at = λ w. refl }

  pub Quiet-raise : (e : Error) → Quiet (raise {A = A} e)
  Quiet-raise e = record { at = λ w. refl }

  pub Quiet-gets : (f : World → A) → Quiet (gets f)
  Quiet-gets f = record { at = λ w. refl }

  pub Quiet-if : (b : Bool) (m n : Method A) → Quiet m → Quiet n → Quiet (if b then m else n)
  Quiet-if true m n km kn = km
  Quiet-if false m n km kn = kn

  pub Quiet-attempt : (m : Method A) → Quiet m → Quiet (attempt m)
  unfolding attempt
  Quiet-attempt m k = record { at = k.at }

  handled-store :
      (p : Result Error A × World) (f : Error → Method A)
      → ((e : Error) → Quiet (f e))
      → store (handled p.0 f p.1).1 ≡ store p.1
  handled-store (ok a, t) f k = refl
  handled-store (err e, t) f k = (k e).at t

  pub Quiet-try_except :
      (m : Method A) (f : Error → Method A)
      → Quiet m
      → ((e : Error) → Quiet (f e))
      → Quiet (try_except m f)
  unfolding try_except
  Quiet-try_except m f km kf = record { at = λ w. handled-store (m w) f kf ∙ km.at w }

module _ {A B : Type 0} where
  continue-store :
      (p : Result Error A × World) (f : A → Method B)
      → ((a : A) → Quiet (f a))
      → store (continue p.0 f p.1).1 ≡ store p.1
  continue-store (ok a, t) f k = (k a).at t
  continue-store (err e, t) f k = refl

  pub Quiet-bind :
      (m : Method A) (f : A → Method B) → Quiet m → ((a : A) → Quiet (f a)) → Quiet (m >>= f)
  unfolding ◌>>=◌
  Quiet-bind m f km kf = record { at = λ w. continue-store (m w) f kf ∙ km.at w }

pub Quiet-raise_if : (b : Bool) (e : Error) → Quiet (raise_if b e)
unfolding raise_if
Quiet-raise_if true e = record { at = λ w. refl }
Quiet-raise_if false e = record { at = λ w. refl }

-- A change of the world that the store does not show.
abbrev pub Hidden : (World → World) → Type 0
Hidden f = (w : World) → store (f w) ≡ store w

carry_out-store : (o : Outcome) (f : World → World) → Hidden f → Quiet (carry_out o f)
unfolding carry_out
carry_out-store done f h = record { at = h }
carry_out-store refused f h = record { at = λ w. refl }
carry_out-store late f h = record { at = h }

exit_status-store : (o : Outcome) (f : World → World) → Hidden f → Quiet (exit_status o f)
unfolding exit_status
exit_status-store done f h = record { at = h }
exit_status-store refused f h = record { at = λ w. refl }
exit_status-store late f h = record { at = h }

module _ (os : Platform) where
  pub Quiet-effect : (f : World → World) → Hidden f → Quiet (effect os f)
  unfolding effect
  Quiet-effect f h = record { at = λ w. (carry_out-store (os.outcome w.calls) f h).at (called w) }

  pub Quiet-run : (f : World → World) → Hidden f → Quiet (run os f)
  unfolding run
  Quiet-run f h = record { at = λ w. (exit_status-store (os.outcome w.calls) f h).at (called w) }

  pub Quiet-now : Quiet (now os)
  unfolding now
  Quiet-now = record { at = λ w. refl }

  pub Quiet-read : (f : Option File) → Quiet (read os f)
  unfolding read
  Quiet-read none = Quiet-raise _
  Quiet-read (some f) = Quiet-bind _ _ (Quiet-effect (λ w. w) (λ w. refl)) (λ _. Quiet-pure f)

  pub Quiet-dir : (id : String) → Quiet (dir os id)
  unfolding dir
  Quiet-dir id = Quiet-raise_if _ _

  pub Quiet-sha256 : (f : Option File) → Quiet (sha256 os f)
  unfolding sha256
  Quiet-sha256 f = Quiet-bind _ _ (Quiet-read f) (λ g. Quiet-pure _)

  found_manifest-Quiet : (m : Option Manifest) → Quiet (found_manifest os m)
  unfolding found_manifest
  found_manifest-Quiet none = Quiet-raise _
  found_manifest-Quiet (some m) = Quiet-pure m

  pub Quiet-load : (id : String) → Quiet (load os id)
  unfolding load
  Quiet-load id = Quiet-bind _ _ (Quiet-dir id) λ _.
      Quiet-bind _ _ (Quiet-try_except _ _ (Quiet-effect (λ w. w) (λ w. refl)) (λ e. Quiet-raise _))
        λ _. Quiet-bind _ _ (Quiet-gets _) found_manifest-Quiet

  pub Quiet-systemctl : (f : World → World) → Hidden f → Quiet (systemctl os f)
  unfolding systemctl
  Quiet-systemctl f h = Quiet-bind _ _ (Quiet-run f h) (λ b. Quiet-raise_if _ _)

  pub Quiet-with_temporary : (m : Method (Unit {0})) → Quiet m → Quiet (with_temporary os m)
  unfolding with_temporary
  Quiet-with_temporary m k =
      let t = Quiet-effect (λ w. w) (λ w. refl) in
      Quiet-bind _ _ t λ _.
        Quiet-bind _ _ (Quiet-try_except _ _ k (λ e. Quiet-bind _ _ t (λ _. Quiet-raise e))) λ _. t

  pub Quiet-replace_file :
      (source : World → Option File) (destination : String) (mode : ℕ)
      → Quiet (replace_file os source destination mode)
  unfolding replace_file
  Quiet-replace_file source destination mode = Quiet-with_temporary _ (
      Quiet-bind _ _ (Quiet-gets _) λ file.
        Quiet-bind _ _ (Quiet-read file)
          λ f. Quiet-bind _ _ (Quiet-effect (λ w. w) (λ w. refl)) λ _. Quiet-effect _ (λ w. refl))

  -- What a quiet method keeps; where it raises, a consequence of it will do.
  pub Quiet-Post :
      {A : Type 0} (P R : Store → Type 0) (m : Method A) (w : World)
      → Quiet m
      → ((s : Store) → P s → R s)
      → P (store w)
      → Post (λ (_ : A) t. P (store t)) (λ t. R (store t)) (m w)
  Quiet-Post {A} P R m w k r h = record { holds = either (m w) (subst P (sym (k.at w)) h) }
    where
      either :
          (p : Result Error A × World)
          → P (store p.1)
          → After (λ (_ : A) t. P (store t)) (λ t. R (store t)) p
      either (ok a, t) h = h
      either (err e, t) h = r _ h

module _ (os : Platform) {Q : Unit {0} → World → Type 0} {R : World → Type 0} where
  carry_out-Post :
      (o : Outcome) (f : World → World) (w : World)
      → R w
      → R (f w)
      → Q tt (f w)
      → Post Q R (carry_out o f w)
  unfolding carry_out
  carry_out-Post done f w r rf q = record { holds = q }
  carry_out-Post refused f w r rf q = record { holds = r }
  carry_out-Post late f w r rf q = record { holds = rf }

  pub effect-Post :
      (f : World → World) (w : World)
      → R (called w)
      → R (f (called w))
      → Q tt (f (called w))
      → Post Q R (effect os f w)
  unfolding effect
  effect-Post f w r rf q = carry_out-Post (os.outcome w.calls) f (called w) r rf q

module _ (os : Platform) {A B : Type 0} {Q : B → World → Type 0} where
  -- A quiet method, and what follows it.
  pub quietly :
      (P R : Store → Type 0) (m : Method A) (f : A → Method B) (w : World)
      → Quiet m
      → ((s : Store) → P s → R s)
      → P (store w)
      → ((a : A) (t : World) → P (store t) → Post Q (λ u. R (store u)) (f a t))
      → Post Q (λ u. R (store u)) ((m >>= f) w)
  quietly P R m f w k r h next = >>=-Post _ _ _ (Quiet-Post os P R m w k r h) next
