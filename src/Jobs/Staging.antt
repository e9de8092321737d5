-- ===== src/Jobs/Staging.antt =====
-- What a call of `publish_record` in governor/job_records.py leaves, with and without a runtime.
use mathlib.Core.Path.{subst}
use lifeos_platform.Prelude.{String, ◌≡◌, refl, sym, inl, inr, true, not, some, arith, Bool-cases}
use lifeos_platform.Prelude.Exec.{Result, ok, err}
use lifeos_platform.Prelude.Keyed.{update_self}
use lifeos_platform.Prelude.Post.{Post, After, >>=-Post, if-Post, pure-Post, Post_ok, Post-weaken}
use lifeos_platform.Jobs.Publication.{
  is_staged, Answer, staged, invalid_job_id, World, Platform, mkdir, write_staged,
  stage_runtime_record, publish_record,
}
use lifeos_platform.Jobs.Honest.{IsHonest, Told, publish_in_checkout-Post}

module _ (os : Platform) where
  -- The checkout is as it was: its record files, and the commands that git ran in it.
  abbrev pub IsUntouched : World → World → Type 0
  IsUntouched w t = (t.record_of ≡ w.record_of) × (t.ran ≡ w.ran)

  IsUntouched-mkdir :
      (w : World) → Post (λ (_ : Unit {0}) t. IsUntouched w t) (IsUntouched w) (mkdir os w)
  unfolding mkdir
  IsUntouched-mkdir w = elim (Bool-cases (os.makes w.calls)) [
    | inl y ↦ rw y (record { holds = (refl, refl) })
    | inr n ↦ rw n (record { holds = (refl, refl) })
  ]

  write_staged-Post :
      (id : String) (w v : World)
      → IsUntouched v w
      → Post
          (λ (_ : Unit {0}) t. (t.staged_of id ≡ some is_staged) × IsUntouched v t)
          (IsUntouched v)
          (write_staged os id is_staged w)
  unfolding write_staged
  write_staged-Post id w v h = elim (Bool-cases (os.writes w.calls)) [
    | inl y ↦ rw y (record { holds = (update_self w.staged_of id (some is_staged), h) })
    | inr n ↦ rw n (record { holds = h })
  ]

  stage_runtime_record-Post :
      (id : String) (w : World)
      → Post
          (λ a t. (a ≡ staged) × (t.staged_of id ≡ some is_staged) × IsUntouched w t)
          (IsUntouched w)
          (stage_runtime_record os id w)
  unfolding stage_runtime_record
  stage_runtime_record-Post id w =
      >>=-Post _ _ w (IsUntouched-mkdir w) λ _ t h.
        >>=-Post _ _ t (write_staged-Post id t w h) λ _ u (s, k). pure-Post _ u (refl, s, k)

  Told-IsHonest :
      (id : String) (w : World) (a : Answer) (t : World) → Told os id w a t → IsHonest id w a t
  Told-IsHonest id w a t (inl ((c, e), s, k)) = subst (λ x. IsHonest id w x t) (sym e) (s, k)
  Told-IsHonest id w a t (inr ((x, e), s)) = subst (λ x. IsHonest id w x t) (sym e) s

  publish_record-Post :
      (id : String) (w : World)
      → Post (λ a t. IsHonest id w a t) (λ _. Unit {0}) (publish_record os id w)
  unfolding publish_record
  publish_record-Post id w =
      if-Post (not (os.valid_id id)) _ _ w (λ h. pure-Post invalid_job_id w refl)
        (λ h.
          if-Post os.runtime_state _ _ w
            (λ r.
              Post-weaken (stage_runtime_record-Post id w)
                (λ a t (e, s, k). subst (λ x. IsHonest id w x t) (sym e) (s, k.0, k.1)) (λ t k. tt))
            (λ r.
              Post-weaken (publish_in_checkout-Post os id w) (λ a t k. Told-IsHonest id w a t k)
                (λ t k. tt)))

-- Where `publish_record` returns, its answer is what is stored: PUBLISHED stands in the record, with
-- the record added, committed if it differs, and pushed; STAGED stands in the staged record, with the
-- checkout untouched; an invalid identifier changes nothing; otherwise UNPUBLISHED is in the record.
pub publish_record-IsHonest :
    (os : Platform) (id : String) (w t : World) (a : Answer)
    → publish_record os id w ≡ (ok a, t)
    → IsHonest id w a t
publish_record-IsHonest os id w t a h = Post_ok (publish_record-Post os id w) h

always :
    {E A : Type 0} (K : World → Type 0) (p : Result E A × World)
    → After (λ (_ : A) t. K t) K p
    → K p.1
always K (ok a, t) h = h
always K (err e, t) h = h

-- With a runtime state, a call of `publish_record`, also one that raises, leaves the records of the
-- checkout alone and runs no command of git.
pub publish_record-IsUntouched :
    (os : Platform) (id : String) (w : World)
    → os.runtime_state ≡ true
    → IsUntouched os w (publish_record os id w).1
unfolding publish_record
publish_record-IsUntouched os id w r = always (IsUntouched os w) (publish_record os id w) post.holds
  where
    post : Post (λ (_ : Answer) t. IsUntouched os w t) (IsUntouched os w) (publish_record os id w)
    post =
        if-Post (not (os.valid_id id)) _ _ w (λ h. pure-Post invalid_job_id w (refl, refl))
          (λ h.
            if-Post os.runtime_state _ _ w
              (λ _. Post-weaken (stage_runtime_record-Post os id w) (λ a t (e, s, k). k) (λ t k. k))
              (λ n. absurd (ground arith)))
