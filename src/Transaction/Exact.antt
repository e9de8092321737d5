-- ===== src/Transaction/Exact.antt =====
-- What the helpers of the controller have done where they return.
use mathlib.Core.Path.{subst}
use lifeos_platform.Prelude.{
  ℕ, suc, String, ◌≡◌, refl, sym, ◌∙◌, ap, Bool, true, false, not, Option, none, some, arith,
  if◌then◌else◌,
}
use lifeos_platform.Prelude.Keyed.{update}
use lifeos_platform.Prelude.Exec.{Result, ok, err, raise_if}
use lifeos_platform.Prelude.Post.{
  After, Post, Post-weaken, >>=-Post, gets-Post, pure-Post, raise-Post, try_except-Post,
  raise_if-Post,
}
use lifeos_platform.Transaction.World.{
  Platform, Outcome, done, refused, late, File, Manifest, World, Error, Method, carry_out,
  exit_status, called, effect, run, now, read, set_manifest, set_file,
}
use lifeos_platform.Transaction.Files.{
  dir, found_manifest, load, save, systemctl, sha256, with_temporary, replace_file,
}

-- The worlds that are left by errors do not matter here.
abbrev pub Returns : {A : Type 0} → (A → World → Type 0) → Result Error A × World → Type 0
Returns Q p = Post Q (λ _. Unit {0}) p

-- Nothing is asked of what a method returns.
pub anything : {A : Type 0} (m : Method A) (w : World) → Returns (λ _ _. Unit {0}) (m w)
anything m w = record { holds = any_end (m w) }
  where
    any_end : {A : Type 0} (p : Result Error A × World) → After (λ _ _. Unit {0}) (λ _. Unit {0}) p
    any_end (ok a, t) = tt
    any_end (err e, t) = tt

carry_out_exact :
    (o : Outcome) (f : World → World) (w : World) → Returns (λ _ t. t ≡ f w) (carry_out o f w)
unfolding carry_out
carry_out_exact done f w = record { holds = refl }
carry_out_exact refused f w = record { holds = tt }
carry_out_exact late f w = record { holds = tt }

-- The world after a command: its return code says whether it was carried out.
abbrev pub ran : (World → World) → Bool → World → World
ran f b w = if b then f w else w

exit_status_exact :
    (o : Outcome) (f : World → World) (w : World)
    → Returns (λ b t. t ≡ ran f b w) (exit_status o f w)
unfolding exit_status
exit_status_exact done f w = record { holds = refl }
exit_status_exact refused f w = record { holds = refl }
exit_status_exact late f w = record { holds = tt }

module _ (os : Platform) where
  pub effect_exact :
      (f : World → World) (w : World) → Returns (λ _ t. t ≡ f (called w)) (effect os f w)
  unfolding effect
  effect_exact f w = carry_out_exact (os.outcome w.calls) f (called w)

  pub run_exact :
      (f : World → World) (w : World) → Returns (λ b t. t ≡ ran f b (called w)) (run os f w)
  unfolding run
  run_exact f w = exit_status_exact (os.outcome w.calls) f (called w)

  pub now_exact :
      (w : World) → Returns (λ time t. (time ≡ os.time w.calls) × (t ≡ called w)) (now os w)
  unfolding now
  now_exact w = record { holds = (refl, refl) }

  pub dir_exact : (id : String) (w : World) → Returns (λ _ t. t ≡ w) (dir os id w)
  unfolding dir raise_if
  dir_exact id w = ground_dir _
    where
      ground_dir : (b : Bool) → Returns (λ _ t. t ≡ w) (raise_if b Error.invalid_id w)
      ground_dir true = record { holds = tt }
      ground_dir false = record { holds = refl }

  pub read_exact :
      (file : Option File) (w : World)
      → Returns (λ f t. (file ≡ some f) × (t ≡ called w)) (read os file w)
  unfolding read
  read_exact none w = record { holds = tt }
  read_exact (some f) w =
      >>=-Post _ _ _ (effect_exact (λ w. w) w) (λ _ t e. pure-Post f t (refl, e))

  pub sha256_exact :
      (file : Option File) (w : World)
      → Returns
          (λ d t. (f : File) × (file ≡ some f) × (d ≡ os.digest f.content) × (t ≡ called w))
          (sha256 os file w)
  unfolding sha256
  sha256_exact file w =
      >>=-Post _ _ _ (read_exact file w) (λ f t (e, c). pure-Post _ t (f, e, refl, c))

  found_exact :
      (found : Option Manifest) (w : World)
      → Returns (λ m t. (found ≡ some m) × (t ≡ w)) (found_manifest os found w)
  unfolding found_manifest
  found_exact none w = record { holds = tt }
  found_exact (some m) w = record { holds = (refl, refl) }

  pub load_exact :
      (id : String) (w : World)
      → Returns (λ m t. (w.manifests id ≡ some m) × (t ≡ called w)) (load os id w)
  unfolding load
  load_exact id w = >>=-Post _ _ _ (dir_exact id w) λ _ u e.
      >>=-Post {Q' = λ _ t. t ≡ called u} _ _ _
        (try_except-Post {R' = λ _. Unit {0}} _ _ u (effect_exact (λ w. w) u)
          (λ x t _. raise-Post _ t tt))
        λ _ v f.
          gets-Post _ _ v
            (Post-weaken (found_exact (v.manifests id) v) (λ m t (g, h). (cc, cc)) (λ _ _. tt))

  pub save_exact :
      (m : Manifest) (w : World)
      → Returns
          (λ n t.
            (n ≡ record m { updated_at = os.time w.calls })
            × (t ≡ set_manifest n (called (called w))))
          (save os m w)
  unfolding save
  save_exact m w = >>=-Post _ _ _ (now_exact w) λ time u (e, f).
      >>=-Post _ _ _ (dir_exact m.transaction_id u)
        λ _ v g. >>=-Post _ _ _ (effect_exact _ v) λ _ t h. pure-Post _ t (cc, cc)

  pub systemctl_exact :
      (f : World → World) (w : World) → Returns (λ _ t. t ≡ f (called w)) (systemctl os f w)
  unfolding systemctl
  systemctl_exact f w = >>=-Post _ _ _ (run_exact f w) λ b u e.
      Post-weaken {R = λ _. Unit {0}} (raise_if-Post (not b) _ u tt) (λ _ t (g, h). ground arith)
        (λ _ _. tt)

  with_temporary_exact :
      (body : Method (Unit {0})) (Q : World → Type 0) (w : World)
      → ((u : World) → u ≡ called w → Returns (λ _ t. Q (called t)) (body u))
      → Returns (λ _ t. Q t) (with_temporary os body w)
  unfolding with_temporary
  with_temporary_exact body Q w h = >>=-Post _ _ _ (effect_exact (λ w. w) w) λ _ u e.
      >>=-Post {Q' = λ _ t. Q (called t)} _ _ _
        (try_except-Post {R' = λ _. Unit {0}} _ _ u (h u e)
          (λ x t _. >>=-Post _ _ _ (effect_exact (λ w. w) t) (λ _ t _. raise-Post x t tt)))
        λ _ v q.
          Post-weaken {R = λ _. Unit {0}} (effect_exact (λ w. w) v) (λ _ t f. subst Q (sym f) q)
            (λ _ _. tt)

  -- The destination holds the source's content, with the mode that was asked for, owned by root.
  pub replace_file_exact :
      (source : World → Option File) (destination : String) (mode : ℕ) (w : World)
      → Returns
          (λ _ t.
            (f : File) × (n : ℕ) × (source (called w) ≡ some f)
            × (t ≡ record w {
              calls = n;
              files =
                  update w.files destination
                    (some (record { content = f.content; mode = mode; owner = 0; regular = true }));
            }))
          (replace_file os source destination mode w)
  unfolding replace_file
  replace_file_exact source destination mode w =
      with_temporary_exact _
        (λ t.
          (f : File) × (n : ℕ) × (source (called w) ≡ some f)
          × (t ≡ record w {
            calls = n;
            files =
                update w.files destination
                  (some (record { content = f.content; mode = mode; owner = 0; regular = true }));
          }))
        w
        λ u e. gets-Post _ _ u (
          >>=-Post _ _ _ (read_exact (source u) u) λ f v (g, h).
            >>=-Post _ _ _ (effect_exact (λ w. w) v) λ _ x k.
              Post-weaken {R = λ _. Unit {0}} (effect_exact _ x)
                (λ _ t l.
                  (f, suc t.calls, ap source (sym e) ∙ g, replaced u v x t f.content e h k l))
                (λ _ _. tt))
    where
      replaced :
          (u v x t : World) (content : String)
          → u ≡ called w
          → v ≡ called u
          → x ≡ called v
          → t
            ≡ set_file destination
                (some (record { content = content; mode = mode; owner = 0; regular = true }))
                (called x)
          → called t ≡ record w {
            calls = suc t.calls;
            files =
                update w.files destination
                  (some (record { content = content; mode = mode; owner = 0; regular = true }));
          }
      replaced u v x t content e h k l =
          ap (λ (z : World). record z { calls = suc t.calls }) l
          ∙ ap
              (λ (y : World). record y {
                calls = suc t.calls;
                files =
                    update y.files destination
                      (some (record { content = content; mode = mode; owner = 0; regular = true }));
              })
              (k ∙ ap called (h ∙ ap called e))
