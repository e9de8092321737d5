-- ===== src/Jobs/Honest.antt =====
-- What the answer of `publish_record` in governor/job_records.py says of the stored record.
use mathlib.Core.Path.{subst}
use lifeos_platform.Prelude.{
  ℕ, String, ◌≡◌, refl, ap, ◌∙◌, ◌⊎◌, inl, inr, false, not, Option, some, List, ◌∷◌, arith, ◌==◌,
  Bool-cases,
}
use lifeos_platform.Prelude.Keyed.{update_self}
use lifeos_platform.Prelude.Post.{
  Post, >>=-Post, guard-Post, raise_if-Post, try_except-Post, if-Post, pure-Post, Post-weaken,
}
use lifeos_platform.Jobs.Publication.{
  PublicationState, is_staged, is_published, is_unpublished, Command, add, diff, commit, push,
  rev_parse, Exit, raised, code, Error, git_commit_failed, git_diff_failed, Answer, published,
  staged, invalid_job_id, unpublished, World, Platform, mkdir, write_record, ended, command,
  commit_changes, push_record, withdraw, publish_in_checkout,
}

-- The commands of a publication: a commit only if there was a difference, then a push.
abbrev pub IsPushed : List (Command × ℕ) → List (Command × ℕ) → Type 0
IsPushed before after =
    (r : ℕ) × ((after ≡ (rev_parse, r) ∷ (push, 0) ∷ (diff, 0) ∷ (add, 0) ∷ before)
      ⊎ (after ≡ (rev_parse, r) ∷ (push, 0) ∷ (commit, 0) ∷ (diff, 1) ∷ (add, 0) ∷ before))

-- What each answer promises, from the world before to the one after.
abbrev pub IsHonest : String → World → Answer → World → Type 0
IsHonest id w (published c) t = (t.record_of id ≡ some is_published) × IsPushed w.ran t.ran
IsHonest id w staged t =
    (t.staged_of id ≡ some is_staged) × (t.record_of ≡ w.record_of) × (t.ran ≡ w.ran)
IsHonest id w invalid_job_id t = t ≡ w
IsHonest id w (unpublished e) t = t.record_of id ≡ some is_unpublished

module _ (os : Platform) where
  abbrev pub Anyhow : World → Type 0
  Anyhow t = Unit

  command-Post :
      (c : Command) (w : World)
      → Post
          (λ n (t : World). (t.record_of ≡ w.record_of) × (t.ran ≡ (c, n) ∷ w.ran))
          Anyhow
          (command os c w)
  unfolding command
  command-Post c w = by (os.git w.calls c)
    where
      by :
          (x : Exit)
          → Post
              (λ n (t : World). (t.record_of ≡ w.record_of) × (t.ran ≡ (c, n) ∷ w.ran))
              Anyhow
              (ended os c w x)
      by raised = record { holds = tt }
      by (code n) = record { holds = (refl, refl) }

  write_record-Post :
      (id : String) (s : PublicationState) (w : World)
      → Post
          (λ _ (t : World). (t.record_of id ≡ some s) × (t.ran ≡ w.ran))
          Anyhow
          (write_record os id s w)
  unfolding write_record
  write_record-Post id s w = elim (Bool-cases (os.writes w.calls)) [
    | inl y ↦ rw y (record { holds = (update_self w.record_of id (some s), refl) })
    | inr n ↦ rw n (record { holds = tt })
  ]

  -- The guard that lets a command pass only with the return code 0.
  zero_code : (n : ℕ) → not (n == 0) ≡ false → n ≡ 0
  zero_code n h = ground arith

  abbrev Committed : ℕ → World → World → Type 0
  Committed n w t =
      (t.record_of ≡ w.record_of)
      × (((n ≡ 0) × (t.ran ≡ w.ran)) ⊎ ((n ≡ 1) × (t.ran ≡ (commit, 0) ∷ w.ran)))

  commit_changes-Post :
      (n : ℕ) (w : World) → Post (λ _ t. Committed n w t) Anyhow (commit_changes os n w)
  unfolding commit_changes
  commit_changes-Post n w =
      if-Post (n == 1) _ _ w
        (λ one. >>=-Post _ _ w (command-Post commit w) λ c t (same, ran).
          Post-weaken {R = Anyhow} (raise_if-Post (not (c == 0)) git_commit_failed t tt)
            (λ _ u (zero, e). (
              ap (λ (x : World). x.record_of) e ∙ same,
              inr (
                ground arith,
                ap (λ (x : World). x.ran) e
                    ∙ (ran ∙ ap (λ k. (commit, k) ∷ w.ran) (zero_code c zero)),
              ),
            ))
            (λ u h. tt))
        (λ other.
          Post-weaken {R = Anyhow} (raise_if-Post (not (n == 0)) git_diff_failed w tt)
            (λ _ u (zero, e). (
              ap (λ (x : World). x.record_of) e,
              inl (zero_code n zero, ap (λ (x : World). x.ran) e),
            ))
            (λ u h. tt))

  abbrev Pushed : World → Answer → World → Type 0
  Pushed w a t =
      (t.record_of ≡ w.record_of) × ((c : Option String) × (a ≡ published c)) × IsPushed w.ran t.ran

  after_push :
      (a d p r : ℕ) (w t1 t2 t3 t4 t5 : World)
      → t1.ran ≡ (add, a) ∷ w.ran
      → a ≡ 0
      → t2.ran ≡ (diff, d) ∷ t1.ran
      → Committed d t2 t3
      → t4.ran ≡ (push, p) ∷ t3.ran
      → p ≡ 0
      → t5.ran ≡ (rev_parse, r) ∷ t4.ran
      → IsPushed w.ran t5.ran
  after_push a d p r w t1 t2 t3 t4 t5 r1 a0 r2 (s, inl (d0, r3)) r4 p0 r5 = (r, inl (ground arith))
  after_push a d p r w t1 t2 t3 t4 t5 r1 a0 r2 (s, inr (d1, r3)) r4 p0 r5 = (r, inr (ground arith))

  push_record-Post : (w : World) → Post (λ a t. Pushed w a t) Anyhow (push_record os w)
  unfolding push_record
  push_record-Post w = >>=-Post _ _ w (command-Post add w) λ a t1 (s1, r1).
      guard-Post _ _ _ t1 tt λ a0. >>=-Post _ _ t1 (command-Post diff t1) λ d t2 (s2, r2).
        >>=-Post _ _ t2 (commit_changes-Post d t2) λ _ t3 k.
          >>=-Post _ _ t3 (command-Post push t3) λ p t4 (s4, r4). guard-Post _ _ _ t4 tt λ p0.
            >>=-Post _ _ t4 (command-Post rev_parse t4) λ r t5 (s5, r5). pure-Post _ t5 (
              s5 ∙ (s4 ∙ (k.0 ∙ (s2 ∙ s1))),
              (_, refl),
              after_push a d p r w t1 t2 t3 t4 t5 r1 (zero_code a a0) r2 k r4 (zero_code p p0) r5,
            )

  -- The record is that of the answer, and the commands are those of a publication.
  abbrev pub Told : String → World → Answer → World → Type 0
  Told id w a t =
      (((c : Option String) × (a ≡ published c))
        × (t.record_of id ≡ some is_published)
        × IsPushed w.ran t.ran)
      ⊎ (((e : Error) × (a ≡ unpublished e)) × (t.record_of id ≡ some is_unpublished))

  withdraw-Post :
      (id : String) (w : World) (e : Error) (t : World)
      → Post (λ a u. Told id w a u) Anyhow (withdraw os id e t)
  unfolding withdraw
  withdraw-Post id w e t =
      >>=-Post _ _ t (write_record-Post id is_unpublished t)
        λ _ u (same, ran). pure-Post _ u (inr ((e, refl), same))

  mkdir-Post :
      (w : World)
      → Post (λ (_ : Unit {0}) t. (t.ran ≡ w.ran) × (t.record_of ≡ w.record_of)) Anyhow (mkdir os w)
  unfolding mkdir
  mkdir-Post w = elim (Bool-cases (os.makes w.calls)) [
    | inl y ↦ rw y (record { holds = (refl, refl) })
    | inr n ↦ rw n (record { holds = tt })
  ]

  pub publish_in_checkout-Post :
      (id : String) (w : World) → Post (λ a t. Told id w a t) Anyhow (publish_in_checkout os id w)
  unfolding publish_in_checkout
  publish_in_checkout-Post id w = >>=-Post _ _ w (mkdir-Post w) λ _ t1 (r1, s1).
      >>=-Post _ _ t1 (write_record-Post id is_published t1) λ _ t2 (s2, r2).
        try_except-Post {R' = Anyhow} _ _ t2
          (Post-weaken (push_record-Post t2)
            (λ a t (s, c, k).
              inl (c, ap (λ f. f id) s ∙ s2, subst (λ l. IsPushed l t.ran) (r2 ∙ r1) k))
            (λ t h. tt))
          (λ e t h. withdraw-Post id w e t)
