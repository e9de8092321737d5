-- ===== src/Agent/Executed.antt =====
-- Which files `run_pi5_runtime` runs (governor/autonomous_agent.py).
use mathlib.Core.Path.{subst}
use lifeos_platform.Prelude.{
  suc, String, ◌≡◌, ◌≤◌, refl, sym, ap, ◌⊎◌, inl, inr, arith, Bool, true, false, ◌&&◌, ◌||◌, not,
  Option, none, some, List, ◌∷◌, str_eq, is_text, ltb, if◌then◌else◌,
}
use lifeos_platform.Prelude.Exec.{Result, ok, err}
use lifeos_platform.Prelude.Post.{
  Post, >>=-Post, gets-Post, guard-Post, if-Post, pure-Post, try_except-Post, Post-weaken,
}
use lifeos_platform.Agent.Loop.{Exception}
use lifeos_platform.Agent.Artifact.{
  File, Script, System, World, Answer, none_declared, found, failed, max_runtime_bytes, answered,
  touch, replaced, replace, inspect, verify_runtime_artifact, is_found, is_link, place,
  publish_script, has_shebang, publish_decoded, is_missing, payload_text, publish_runtime_artifact,
  execute_file, run_published, run_runtime,
}

module _ (sys : System) where
  -- A file that may be run for a script: a regular one in the runtime directory, executable, with the
  -- script's digest.
  pub record IsCopy (script : Script) (file : File) : Type 0 where
    pub inside : sys.escapes (some file) ≡ false
    pub unlinked : file.is_symlink ≡ false
    pub regular : file.is_regular ≡ true
    pub executable : file.is_executable ≡ true
    pub same : str_eq (sys.digest file.content) (sys.digest script.content) ≡ true

  module _ (script : Script) (before : List File) where
    abbrev pub Kept : World → Type 0
    Kept t = t.executed ≡ before

    -- What is reported as found is at the place.
    abbrev pub Claim : Answer → Option File → Type 0
    Claim (found digest) target = (file : File) × (target ≡ some file) × IsCopy script file
    Claim _ target = Unit {0}

    abbrev pub Placed : Answer → World → Type 0
    Placed a t = Kept t × Claim a t.target

    abbrev pub Claims : Result Exception Answer × World → Type 0
    Claims r = Post Placed Kept r

    touch-Kept :
        (w : World) → Kept w → Post {E = Exception} (λ (_ : Unit {0}) t. Kept t) Kept (touch sys w)
    unfolding touch
    touch-Kept w e = by (sys.failure w.calls)
      where
        by :
            (f : Option Exception)
            → Post
                (λ (_ : Unit {0}) t. Kept t)
                Kept
                (answered sys f tt, record w { calls = suc w.calls })
        by none = record { holds = e }
        by (some x) = record { holds = e }

    replace-Kept :
        (file : File) (w : World)
        → Kept w
        → Post {E = Exception} (λ (_ : Unit {0}) t. Kept t) Kept (replace sys file w)
    unfolding replace
    replace-Kept file w e = by (sys.failure w.calls)
      where
        by :
            (f : Option Exception)
            → Post (λ (_ : Unit {0}) t. Kept t) Kept (answered sys f tt, replaced sys f file w)
        by none = record { holds = e }
        by (some x) = record { holds = e }

    by_test :
        (target : Option File) (b : Bool) (x y : Answer)
        → (b ≡ true → Claim x target)
        → (b ≡ false → Claim y target)
        → Claim (if b then x else y) target
    by_test target true x y h k = h refl
    by_test target false x y h k = k refl

    inspect-Claim :
        (target : Option File)
        → sys.escapes target ≡ false
        → Claim (inspect sys (some (sys.digest script.content)) target) target
    inspect-Claim none i = tt
    inspect-Claim (some file) i =
        by_test (some file) (file.is_symlink || not file.is_regular)
          (failed "runtime_file_missing_or_unsafe") _ (λ _. tt)
          λ a.
            by_test (some file) (not file.is_executable) (failed "runtime_file_not_executable") _
              (λ _. tt)
              λ b.
                by_test (some file)
                  (not (str_eq (sys.digest file.content) (sys.digest script.content)))
                  (failed "sha256_mismatch") _ (λ _. tt)
                  λ c. (
                    file,
                    refl,
                    record {
                      inside = i;
                      unlinked = ground arith;
                      regular = ground arith;
                      executable = ground arith;
                      same = ground arith;
                    },
                  )

    verify-Claims :
        (job_id : String) (w : World)
        → Kept w
        → Claims (verify_runtime_artifact sys job_id (some (sys.digest script.content)) w)
    unfolding verify_runtime_artifact
    verify-Claims job_id w e =
        if-Post (not (sys.is_job_id job_id)) _ _ w (λ _. pure-Post _ w (e, tt))
          λ _.
            try_except-Post {R' = Kept} _ _ w
              (>>=-Post _ _ w (touch-Kept w e) λ _ t f.
                gets-Post _ _ t
                  (guard-Post _ _ _ t f λ i. pure-Post _ t (f, inspect-Claim t.target i)))
              λ x t f. pure-Post _ t (f, tt)

    place-Claims : (job_id : String) (w : World) → Kept w → Claims (place sys job_id script w)
    unfolding place
    place-Claims job_id w e = >>=-Post _ _ w (touch-Kept w e) λ _ a ea. gets-Post _ _ a (
        if-Post (is_link sys a.target) _ _ a (λ _. pure-Post _ a (ea, tt))
          λ _.
            >>=-Post _ _ a (touch-Kept a ea)
              λ _ b eb. >>=-Post _ _ b (replace-Kept _ b eb) λ _ c ec. verify-Claims job_id c ec)

    pub publish_script-Claims :
        (job_id : String) (w : World) → Kept w → Claims (publish_script sys job_id script w)
    unfolding publish_script
    publish_script-Claims job_id w e = >>=-Post _ _ w (touch-Kept w e) λ _ a ea.
        >>=-Post _ _ a (verify-Claims job_id a ea) λ already b (eb, claim).
          if-Post (is_found sys already) _ _ b (λ _. pure-Post _ b (eb, claim))
            λ _.
              try_except-Post {R' = Kept} _ _ b (place-Claims job_id b eb)
                λ x t f. pure-Post _ t (f, tt)

  module _ (privacy expected : String) (route run_script payload : Option String)
      (before : List File) where
    -- What lets a script be published: it is the payload, small and of bash, at the job's own path,
    -- and the local builder's where the job is private.
    pub record Approved (script : Script) : Type 0 where
      pub decoded : sys.b64decode (payload_text sys payload) ≡ ok script
      pub small : script.size ≤ max_runtime_bytes
      pub shebang : has_shebang sys script.text ≡ true
      pub own_path : is_text run_script expected ≡ true
      pub own : str_eq privacy "local-only" ≡ true → is_text route "local" ≡ true

    abbrev Proven : Answer → Option File → Type 0
    Proven (found digest) target =
        (script : Script) × Approved script × Claim script before (found digest) target
    Proven _ target = Unit {0}

    abbrev Publishes : Result Exception Answer × World → Type 0
    Publishes r =
        Post (λ a t. (t.executed ≡ before) × Proven a t.target) (λ t. t.executed ≡ before) r

    prove :
        (script : Script) (a : Answer) (target : Option File)
        → Approved script
        → Claim script before a target
        → Proven a target
    prove script none_declared target p c = tt
    prove script (failed reason) target p c = tt
    prove script (found digest) target p c = (script, p, c)

    publish_decoded-Publishes :
        (job_id : String) (r : Result String Script) (w : World)
        → w.executed ≡ before
        → sys.b64decode (payload_text sys payload) ≡ r
        → is_text run_script expected ≡ true
        → (str_eq privacy "local-only" ≡ true → is_text route "local" ≡ true)
        → Publishes (publish_decoded sys job_id r w)
    publish_decoded-Publishes job_id (err kind) w e d p o = pure-Post _ w (e, tt)
    publish_decoded-Publishes job_id (ok script) w e d p o =
        if-Post (ltb max_runtime_bytes script.size || not (has_shebang sys script.text)) _ _ w
          (λ _. pure-Post _ w (e, tt))
          λ n.
            let approved : Approved script = record {
              decoded = d;
              small = ground arith;
              shebang = ground arith;
              own_path = p;
              own = o;
            } in
            Post-weaken (publish_script-Claims script before job_id w e)
              (λ a t (f, c). (f, prove script a t.target approved c)) λ t f. f

    publish-Publishes :
        (job_id : String) (w : World)
        → w.executed ≡ before
        → Publishes
            (publish_runtime_artifact sys job_id privacy expected route run_script payload w)
    unfolding publish_runtime_artifact
    publish-Publishes job_id w e =
        if-Post (not (sys.is_job_id job_id)) _ _ w (λ _. pure-Post _ w (e, tt))
          λ _.
            if-Post (is_missing sys run_script && is_missing sys payload) _ _ w
              (λ _. pure-Post _ w (e, tt))
              λ _.
                if-Post (not (is_text run_script expected)) _ _ w (λ _. pure-Post _ w (e, tt))
                  λ p.
                    if-Post (str_eq privacy "local-only" && not (is_text route "local")) _ _ w
                      (λ _. pure-Post _ w (e, tt))
                      λ o.
                        publish_decoded-Publishes job_id _ w e refl (ground arith) λ l. ground arith

    -- Nothing was run, or one copy of an approved script.
    abbrev pub Executed : World → Type 0
    Executed t =
        (t.executed ≡ before)
        ⊎ ((script : Script) × Approved script
            × ((file : File) × (t.executed ≡ file ∷ before) × IsCopy script file))

    run_published-Executed :
        (a : Answer) (w : World)
        → w.executed ≡ before
        → Proven a w.target
        → Post (λ (_ : Answer × Option String) t. Executed t) Executed (run_published sys a w)
    run_published-Executed none_declared w e p = pure-Post _ w (inl e)
    run_published-Executed (failed reason) w e p = pure-Post _ w (inl e)
    run_published-Executed (found digest) w e (script, approved, (file, at, copy)) =
        gets-Post _ _ w (
          >>=-Post {Q' = λ _ t. Executed t} _ _ w
            (subst (λ o. Post (λ (_ : String) t. Executed t) Executed (execute_file sys o w))
              (sym at) (ran (sys.run w.calls file)))
            λ output t x. pure-Post _ t x)
      where
        ran :
            (r : Result Exception String)
            → Post
                (λ (_ : String) t. Executed t)
                Executed
                (r, record w { executed = file ∷ w.executed; calls = suc w.calls })
        ran (ok s) = record {
          holds = inr (script, approved, (file, ap {B = List File} (λ fs. file ∷ fs) e, copy));
        }
        ran (err x) = record {
          holds = inr (script, approved, (file, ap {B = List File} (λ fs. file ∷ fs) e, copy));
        }

-- Whatever fails, and also where it raises, the run of a job's script runs at most one file: a regular
-- executable one in the runtime directory with the digest of the payload's script, which is small, of bash, declared at the
-- job's own path and, for a private job, the local builder's.
pub run_runtime-Executed :
    (sys : System) (job_id privacy expected : String) (route run_script payload : Option String)
    (w : World)
    → Post
        (λ (_ : Answer × Option String) t.
          Executed sys privacy expected route run_script payload w.executed t)
        (λ t. Executed sys privacy expected route run_script payload w.executed t)
        (run_runtime sys job_id privacy expected route run_script payload w)
unfolding run_runtime
run_runtime-Executed sys job_id privacy expected route run_script payload w =
    if-Post (is_missing sys run_script && is_missing sys payload) _ _ w
      (λ _. pure-Post _ w (inl refl))
      λ _.
        >>=-Post _ _ w
          (Post-weaken
            (publish-Publishes sys privacy expected route run_script payload w.executed job_id w
              refl)
            (λ a t h. h) λ t e. inl e)
          λ a t (e, p).
            run_published-Executed sys privacy expected route run_script payload w.executed a t e p
