-- ===== src/Transaction/Commit.antt =====
-- What a successful commit shows, and what it leaves.
use lifeos_platform.Prelude.{
  ℕ, ◌+◌, ◌<◌, String, ◌≡◌, ◌≢◌, ◌∙◌, sym, leb, refl, true, false, Option, none, some, arith,
  eq_refl, eq_iff, ap, [], is_text, all,
}
use lifeos_platform.Prelude.Exec.{ok}
use lifeos_platform.Transaction.World.{
  Platform, Manifest, Proof, World, probation, committed, called, set_timer, set_lock,
}
use lifeos_platform.Prelude.Post.{
  Post_ok, Post-weaken, try_except-Post, gets-Post, if-Post, raise-Post, >>=-Post, guard-Post,
  pure-Post,
}
use lifeos_platform.Transaction.Exact.{
  Returns, anything, load_exact, now_exact, dir_exact, save_exact, systemctl_exact, effect_exact,
}
use lifeos_platform.Transaction.Phases.{
  is_accepted, commit_verified, commit_before, commit, rollback,
}

-- What a commit needs and does, from the world `w` to the world `t` with the manifest `m`.
pub record IsCommit (os : Platform) (id : String) (w : World) (m : Manifest) (t : World)
    : Type 0 where
  pub before : Manifest
  pub deadline : ℕ
  pub proof : Proof
  pub found : w.manifests id ≡ some before
  pub on_probation : before.state ≡ probation
  pub dated : before.deadline ≡ some deadline
  pub in_time : os.time (w.calls + 1) < deadline
  pub proved : w.proofs id ≡ some proof
  pub accepted : proof.accepted ≡ true
  pub derived : proof.derived_by ≡ some "protected-controller"
  pub measured : proof.evidence ≢ []
  pub all_passed : all (λ e. e.passed) proof.evidence ≡ true
  pub state : m.state ≡ committed
  pub stored : t.manifests before.transaction_id ≡ some m
  pub disarmed : t.timers before.timer ≡ false
  pub unlocked : t.locks before.resource_lock ≡ false
  pub same_files : t.files ≡ w.files

-- The part after the deadline and the proof have been read.
record IsSettled (n : Manifest) (proof : Proof) (w : World) (m : Manifest) (t : World)
    : Type 0 where
  accepted : proof.accepted ≡ true
  derived : proof.derived_by ≡ some "protected-controller"
  measured : proof.evidence ≢ []
  all_passed : all (λ e. e.passed) proof.evidence ≡ true
  state : m.state ≡ committed
  stored : t.manifests n.transaction_id ≡ some m
  disarmed : t.timers n.timer ≡ false
  unlocked : t.locks n.resource_lock ≡ false
  same_files : t.files ≡ w.files

accepted_parts :
    (p : Proof)
    → is_accepted p ≡ true
    → (p.accepted ≡ true)
      × (p.derived_by ≡ some "protected-controller")
      × (p.evidence ≢ [])
      × (all (λ e. e.passed) p.evidence ≡ true)
unfolding is_accepted
accepted_parts p h = (ground arith, named p.derived_by (ground arith), ground arith, ground arith)
  where
    named :
        (d : Option String)
        → is_text d "protected-controller" ≡ true
        → d ≡ some "protected-controller"
    named none e = cc
    named (some s) e = ap some ((eq_iff s "protected-controller").0 e)

rebase :
    (n : Manifest) (p : Proof) (v w : World) (m : Manifest) (t : World)
    → v.files ≡ w.files
    → IsSettled n p v m t
    → IsSettled n p w m t
rebase n p v w m t e s = record {
  accepted = s.accepted;
  derived = s.derived;
  measured = s.measured;
  all_passed = s.all_passed;
  state = s.state;
  stored = s.stored;
  disarmed = s.disarmed;
  unlocked = s.unlocked;
  same_files = s.same_files ∙ e;
}

module _ (os : Platform) (id : String) where
  finishing_exact :
      (n : Manifest) (proof : Proof) (w : World)
      → Returns (λ m t. IsSettled n proof w m t) (commit_verified os id n (some proof) w)
  unfolding commit_verified
  finishing_exact n proof w = guard-Post _ _ _ w tt λ ok_proof.
      >>=-Post _ _ _ (systemctl_exact os (set_timer n.timer false) w) λ _ a e.
        >>=-Post _ _ _ (now_exact os a) λ at b (f, g).
          >>=-Post _ _ _ (save_exact os (record n { state = committed; committed_at = some at }) b)
            λ m c (h, k).
              >>=-Post _ _ _ (effect_exact os (set_lock n.resource_lock false) c) λ _ d l.
                pure-Post m d (
                  let (x, y, z, v) = accepted_parts proof (ground arith) in
                  record {
                    accepted = x;
                    derived = y;
                    measured = z;
                    all_passed = v;
                    state = ap (λ (r : Manifest). r.state) h;
                    stored = ground (arith, eq_refl n.transaction_id);
                    disarmed = ground (arith, eq_refl n.timer);
                    unlocked = ground (arith, eq_refl n.resource_lock);
                    same_files = ground arith;
                  })

  proof_exact :
      (n : Manifest) (found : Option Proof) (w : World)
      → Returns
          (λ m t. (p : Proof) × (found ≡ some p) × IsSettled n p w m t)
          (commit_verified os id n found w)
  unfolding commit_verified
  proof_exact n none w = raise-Post _ w tt
  proof_exact n (some p) w =
      Post-weaken {R = λ _. Unit {0}} (finishing_exact n p w) (λ m t h. (p, refl, h)) (λ _ _. tt)

  -- A run past the deadline does not return.
  before_exact :
      (n : Manifest) (deadline : Option ℕ) (w : World)
      → Returns
          (λ m t.
            (d : ℕ) × (p : Proof) × (deadline ≡ some d)
            × (os.time w.calls < d)
            × (w.proofs id ≡ some p)
            × IsSettled n p w m t)
          (commit_before os id n deadline w)
  unfolding commit_before
  before_exact n none w = raise-Post _ w tt
  before_exact n (some d) w = >>=-Post _ _ _ (now_exact os w) λ time a (e, f).
      if-Post (leb d time) _ _ a
        (λ _.
          >>=-Post {Q' = λ _ _. Unit {0}} _ _ _
            (anything (rollback os id "health deadline expired") a) (λ _ t _. raise-Post _ t tt))
        λ early. >>=-Post _ _ _ (dir_exact os id a) λ _ b g.
          >>=-Post {Q' = λ _ t. t ≡ called b} _ _ _
            (try_except-Post {R' = λ _. Unit {0}} _ _ b (effect_exact os (λ w. w) b)
              (λ x t _. raise-Post _ t tt))
            λ _ c h. gets-Post _ _ c (
              Post-weaken {R = λ _. Unit {0}} (proof_exact n (c.proofs id) c)
                (λ m t (p, k, s).
                  let q : c ≡ called (called w) = h ∙ ap called (g ∙ f) in
                  (
                    d,
                    p,
                    refl,
                    ground arith,
                    ap (λ (z : World). z.proofs id) (sym q) ∙ k,
                    rebase n p c w m t (ap (λ (z : World). z.files) q) s,
                  ))
                (λ _ _. tt))

-- A successful commit found the transaction in PROBATION before its deadline, with a stored proof
-- that the controller itself derived, that is accepted, whose evidence is not empty and passed
-- throughout. It leaves the manifest COMMITTED, the watchdog's timer disabled, the resource lock
-- released, and all files as they were.
pub commit-IsCommit :
    (os : Platform) (id : String) (w : World) (m : Manifest) (t : World)
    → commit os id w ≡ (ok m, t)
    → IsCommit os id w m t
unfolding commit
commit-IsCommit os id w m t h =
    Post_ok {Q = IsCommit os id w} {R = λ _. Unit {0}}
      (>>=-Post _ _ _ (load_exact os id w) λ n a (e, f). guard-Post _ _ _ a tt λ on.
        Post-weaken {R = λ _. Unit {0}} (before_exact os id n n.deadline a)
          (λ m t (d, p, dated, early, proved, s). record {
            before = n;
            deadline = d;
            proof = p;
            found = e;
            on_probation = ground arith;
            dated = dated;
            in_time = ground arith;
            proved = ap (λ (z : World). z.proofs id) (sym f) ∙ proved;
            accepted = s.accepted;
            derived = s.derived;
            measured = s.measured;
            all_passed = s.all_passed;
            state = s.state;
            stored = s.stored;
            disarmed = s.disarmed;
            unlocked = s.unlocked;
            same_files = s.same_files ∙ ap (λ (z : World). z.files) f;
          })
          (λ _ _. tt))
      h
