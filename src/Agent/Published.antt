-- ===== src/Agent/Published.antt =====
-- What `apply_and_publish_patch` ran, by its answer (governor/autonomous_agent.py).
use lifeos_platform.Prelude.{
  ℕ, zero, suc, String, ◌≡◌, refl, ap, ◌∙◌, true, false, not, ◌&&◌, ◌≤◌, arith, Option, none, some,
  List, [], ◌∷◌, str_eq, is_text, ltb, is_empty,
}
use lifeos_platform.Prelude.Exec.{Result, ok, err}
use lifeos_platform.Prelude.Post.{Post, >>=-Post, if-Post, pure-Post, try_except-Post, Post-weaken}
use lifeos_platform.Agent.Loop.{Exception}
use lifeos_platform.Agent.Patch.{
  Patch, Command, git_status, fetch, rev_parse_head, rev_parse_origin_main, write_patch,
  apply_check, apply, unlink, add, diff_check, diff_names, commit, rev_parse_commit, push, Shell,
  World, Answer, none_given, cloud_authored, no_effect, invalid_base64, rejected_size,
  checkout_dirty, not_at_origin_main, applied, raised, max_patch_bytes, command, commit_and_push,
  apply_at_origin_main, publish_patch, publish_decoded, apply_and_publish_patch,
}

-- All that is run for a patch, in order.
abbrev pub steps : Patch → List Command
steps patch =
    git_status
    ∷ fetch
    ∷ rev_parse_head
    ∷ rev_parse_origin_main
    ∷ write_patch patch
    ∷ apply_check patch
    ∷ apply patch
    ∷ unlink
    ∷ add
    ∷ diff_check
    ∷ diff_names
    ∷ commit
    ∷ rev_parse_commit
    ∷ push
    ∷ []

-- The first `k` of the commands have been run, after those of `before`, the newest first.
abbrev pub performed : ℕ → List Command → List Command → List Command
performed zero cs before = before
performed (suc k) [] before = before
performed (suc k) (c ∷ cs) before = performed k cs (c ∷ before)

module _ (sh : Shell) (before : List Command) where
  -- `k` of the 14 commands were run.
  abbrev pub Upto : ℕ → Patch → List Command → Type 0
  Upto k patch after = after ≡ performed k (steps patch) before

  abbrev pub Ran : Patch → Answer → List Command → Type 0
  Ran patch (applied sha staged) after = Upto 14 patch after × (is_empty staged ≡ false)
  Ran patch no_effect after = Upto 11 patch after
  Ran patch (not_at_origin_main head origin_main) after =
      Upto 4 patch after × (str_eq head origin_main ≡ false)
  Ran patch (checkout_dirty status) after = Upto 1 patch after
  Ran patch (raised e) after = (k : ℕ) × (k ≤ 14) × Upto k patch after
  Ran patch _ after = ⊥

  abbrev Stopped : Patch → World → Type 0
  Stopped patch t = (k : ℕ) × (k ≤ 14) × Upto k patch t.ran

  command_runs :
      (c : Command) (w : World) (r : List Command) (Q : List Command → Type 0)
      → w.ran ≡ r
      → Q (c ∷ r)
      → Post (λ (_ : String) (t : World). t.ran ≡ c ∷ r) (λ t. Q t.ran) (command sh c w)
  unfolding command
  command_runs c w r Q e q = by (sh.run w.calls c)
    where
      by :
          (x : Result Exception String)
          → Post
              (λ (_ : String) (t : World). t.ran ≡ c ∷ r)
              (λ t. Q t.ran)
              (x, record { calls = suc w.calls; ran = c ∷ w.ran })
      by (ok s) = record { holds = ap {B = List Command} (λ cs. c ∷ cs) e }
      by (err x) = record { holds = rw e q }

  module _ (patch : Patch) where
    does :
        (k : ℕ) (c : Command) (w : World)
        → k ≤ 13
        → Upto k patch w.ran
        → c ∷ performed k (steps patch) before ≡ performed (suc k) (steps patch) before
        → Post
            (λ (_ : String) (t : World). Upto (suc k) patch t.ran)
            (Stopped patch)
            (command sh c w)
    does k c w b e n =
        Post-weaken
          (command_runs c w _ (λ r. (k : ℕ) × (k ≤ 14) × Upto k patch r) e (suc k, omega arith, n))
          (λ _ t h. h ∙ n) λ t h. h

    commit_and_push_ran :
        (w : World)
        → Upto 8 patch w.ran
        → Post (λ a (t : World). Ran patch a t.ran) (Stopped patch) (commit_and_push sh w)
    unfolding commit_and_push
    commit_and_push_ran w e = >>=-Post _ _ w (does 8 add w (omega arith) e refl) λ _ a ea.
        >>=-Post _ _ a (does 9 diff_check a (omega arith) ea refl) λ _ b eb.
          >>=-Post _ _ b (does 10 diff_names b (omega arith) eb refl) λ staged c ec.
            if-Post (is_empty (sh.splitlines staged)) _ _ c (λ _. pure-Post _ c ec)
              λ n. >>=-Post _ _ c (does 11 commit c (omega arith) ec refl) λ _ d ed.
                >>=-Post _ _ d (does 12 rev_parse_commit d (omega arith) ed refl) λ sha f ef.
                  >>=-Post _ _ f (does 13 push f (omega arith) ef refl)
                    λ _ g eg. pure-Post _ g (eg, n)

    apply_at_origin_main_ran :
        (w : World)
        → Upto 1 patch w.ran
        → Post
            (λ a (t : World). Ran patch a t.ran)
            (Stopped patch)
            (apply_at_origin_main sh patch w)
    unfolding apply_at_origin_main
    apply_at_origin_main_ran w e = >>=-Post _ _ w (does 1 fetch w (omega arith) e refl) λ _ a ea.
        >>=-Post _ _ a (does 2 rev_parse_head a (omega arith) ea refl) λ head b eb.
          >>=-Post _ _ b (does 3 rev_parse_origin_main b (omega arith) eb refl) λ origin_main c ec.
            if-Post (not (str_eq (sh.strip head) (sh.strip origin_main))) _ _ c
              (λ n. pure-Post _ c (ec, ground arith))
              λ _. >>=-Post _ _ c (does 4 (write_patch patch) c (omega arith) ec refl) λ _ d ed.
                >>=-Post _ _ d (does 5 (apply_check patch) d (omega arith) ed refl) λ _ f ef.
                  >>=-Post _ _ f (does 6 (apply patch) f (omega arith) ef refl) λ _ g eg.
                    >>=-Post _ _ g (does 7 unlink g (omega arith) eg refl)
                      λ _ h eh. commit_and_push_ran h eh

  module _ (privacy : String) (route : Option String) (payload : Option String) where
    -- What lets a patch be tried: it is decoded from the payload, is not too large, and is the local
    -- builder's where the job is private.
    pub record Admitted (patch : Patch) : Type 0 where
      pub encoded : String
      pub given : payload ≡ some encoded
      pub decoded : sh.b64decode encoded ≡ ok patch
      pub small : patch.size ≤ max_patch_bytes
      pub own : str_eq privacy "local-only" ≡ true → is_text route "local" ≡ true

    -- Either nothing was run, or what the answer says was run for an admitted patch.
    abbrev pub Honest : Answer → List Command → Type 0
    Honest none_given after = after ≡ before
    Honest cloud_authored after = after ≡ before
    Honest (invalid_base64 kind) after = after ≡ before
    Honest (rejected_size n) after = after ≡ before
    Honest (checkout_dirty s) after =
        (patch : Patch) × Admitted patch × Ran patch (checkout_dirty s) after
    Honest (not_at_origin_main h o) after =
        (patch : Patch) × Admitted patch × Ran patch (not_at_origin_main h o) after
    Honest no_effect after = (patch : Patch) × Admitted patch × Ran patch no_effect after
    Honest (applied sha files) after =
        (patch : Patch) × Admitted patch × Ran patch (applied sha files) after
    Honest (raised e) after = (patch : Patch) × Admitted patch × Ran patch (raised e) after

    Ran-Honest :
        (patch : Patch) (a : Answer) (after : List Command)
        → Admitted patch
        → Ran patch a after
        → Honest a after
    Ran-Honest patch none_given after d r = absurd r
    Ran-Honest patch cloud_authored after d r = absurd r
    Ran-Honest patch (invalid_base64 kind) after d r = absurd r
    Ran-Honest patch (rejected_size n) after d r = absurd r
    Ran-Honest patch (checkout_dirty s) after d r = (patch, d, r)
    Ran-Honest patch (not_at_origin_main h o) after d r = (patch, d, r)
    Ran-Honest patch no_effect after d r = (patch, d, r)
    Ran-Honest patch (applied sha files) after d r = (patch, d, r)
    Ran-Honest patch (raised e) after d r = (patch, d, r)

    abbrev Unchecked : World → Type 0
    Unchecked t = t.ran ≡ git_status ∷ before

    publish_patch-Honest :
        (patch : Patch) (w : World)
        → w.ran ≡ before
        → (patch.size ≤ max_patch_bytes → Admitted patch)
        → Post (λ a (t : World). Honest a t.ran) Unchecked (publish_patch sh patch w)
    unfolding publish_patch
    publish_patch-Honest patch w e d =
        if-Post (ltb max_patch_bytes patch.size) _ _ w (λ _. pure-Post _ w e)
          λ n.
            let admitted = d (ground arith) in
            >>=-Post _ _ w (command_runs git_status w before (λ r. r ≡ git_status ∷ before) e refl)
              λ status a ea.
                if-Post (not (str_eq (sh.strip status) "")) _ _ a
                  (λ _. pure-Post _ a (patch, admitted, ea))
                  λ _.
                    Post-weaken
                      (try_except-Post {Q = λ x t. Ran patch x t.ran} {R = λ _. ⊥}
                        {R' = Stopped patch} _ _ a (apply_at_origin_main_ran patch a ea)
                        λ x t s. pure-Post _ t s)
                      (λ x t r. Ran-Honest patch x t.ran admitted r) λ t r. absurd r

-- What is run for a patch is a prefix of one fixed sequence: the answer is `applied` only after all of
-- it, to the push, with something staged, and any other answer stands for the prefix it names.
-- Nothing is run unless the payload decodes to a patch that is small enough and, for a private job,
-- is the local builder's; and only the first `git status` may raise.
pub apply_and_publish_patch-Honest :
    (sh : Shell) (privacy : String) (route payload : Option String) (w : World)
    → Post
        (λ a (t : World). Honest sh w.ran privacy route payload a t.ran)
        (λ t. t.ran ≡ git_status ∷ w.ran)
        (apply_and_publish_patch sh privacy route payload w)
unfolding apply_and_publish_patch
apply_and_publish_patch-Honest sh privacy route none w = pure-Post _ w refl
apply_and_publish_patch-Honest sh privacy route (some payload) w =
    if-Post (str_eq payload "") _ _ w (λ _. pure-Post _ w refl)
      λ _.
        if-Post (str_eq privacy "local-only" && not (is_text route "local")) _ _ w
          (λ _. pure-Post _ w refl) λ own. decoded (sh.b64decode payload) refl own
  where
    decoded :
        (r : Result String Patch)
        → sh.b64decode payload ≡ r
        → str_eq privacy "local-only" && not (is_text route "local") ≡ false
        → Post
            (λ a (t : World). Honest sh w.ran privacy route (some payload) a t.ran)
            (λ t. t.ran ≡ git_status ∷ w.ran)
            (publish_decoded sh r w)
    decoded (err kind) e own = pure-Post _ w refl
    decoded (ok patch) e own =
        publish_patch-Honest sh w.ran privacy route (some payload) patch w refl λ small. record {
          encoded = payload;
          given = refl;
          decoded = e;
          small = small;
          own = λ h. ground arith;
        }
