-- ===== src/Agent/Confirmed.antt =====
-- When declared assertions pass a job's iteration (governor/autonomous_agent.py).
use lifeos_platform.Prelude.{
  eq_iff, eq_refl, ◌∙◌, ℕ, suc, String, ◌≡◌, refl, inl, inr, ◌==◌, Bool-cases, ap, ◌↔◌, arith, Bool,
  true, false, ◌&&◌, not, some, List, [], ◌∷◌, all, str_eq,
}
use mathlib.Core.Path.{subst}
use lifeos_platform.Prelude.Exec.{Result, ok, err, attempt}
use lifeos_platform.Prelude.Post.{Post, After, >>=-Post, pure-Post, Post-weaken}
use lifeos_platform.Agent.Decision.{Verdict}
use lifeos_platform.Agent.Loop.{Exception, is_pass}
use lifeos_platform.Agent.Assertions.{Assertion, tracked_text_contains, tracked_path_absent}
use lifeos_platform.Agent.Canonical.{
  Query, rev_parse_head, rev_parse_origin_main, git_status, Git, Method, Checkout, Answer, report,
  item_passed, is_aligned, canonical_result, query, checkout, run_check, check_all, report_on,
  verify_canonical_assertions, independent_verify,
}

abbrev Fails : {A : Type 0} → Result Exception A → Type 0
Fails r = (x : Exception) × (r ≡ err x)

-- One call, by its number.
ticks :
    {A : Type 0} (r : Result Exception A) (n : ℕ)
    → Post (λ a m. (r ≡ ok a) × (m ≡ suc n)) (λ _. Fails r) (r, suc n)
ticks (ok a) n = record { holds = (refl, refl) }
ticks (err x) n = record { holds = (x, refl) }

attempt_with :
    {A : Type 0} {Q : A → ℕ → Type 0} {R : ℕ → Type 0} (m : Method A) (n : ℕ)
    → Post Q R (m n)
    → Post {E = Exception} (λ r k. After Q R (r, k)) (λ _. Unit {0}) (attempt m n)
unfolding attempt
attempt_with m n h = record { holds = h.holds }

ok_same : {A : Type 0} (r : Result Exception A) (a b : A) → r ≡ ok a → r ≡ ok b → a ≡ b
ok_same r a b h k = ground arith

ok-Fails : {A : Type 0} (r : Result Exception A) (a : A) → r ≡ ok a → Fails r → ⊥
ok-Fails r a h (x, k) = ground arith

-- What the commit at the head holds: whether a text is in a tracked file, and whether a path is
-- tracked.
pub record Repository : Type 0 where
  pub text_in : String → String → Bool
  pub tracks : String → Bool

-- What an assertion says of the repository.
abbrev pub Holds : Repository → Assertion → Type 0
Holds repo (tracked_text_contains id path value) = repo.text_in path value ≡ true
Holds repo (tracked_path_absent id value) = repo.tracks value ≡ false

abbrev pub AllHold : Repository → List Assertion → Type 0
AllHold repo [] = Unit {0}
AllHold repo (a ∷ rest) = Holds repo a × AllHold repo rest

-- `git grep` ends with 0 for a text that it finds, `git cat-file -e` for a path that it finds.
abbrev pub Tells : Repository → Assertion → ℕ → Type 0
Tells repo (tracked_text_contains id path value) code = code ≡ 0 ↔ repo.text_in path value ≡ true
Tells repo (tracked_path_absent id value) code = code ≡ 0 ↔ repo.tracks value ≡ true

-- No command for an assertion ends with the code of a failure.
pub record Truthful (git : Git) (repo : Repository) : Type 0 where
  pub tells : (n : ℕ) (a : Assertion) (code : ℕ) → git.code n a ≡ ok code → Tells repo a code

item_passed-Holds :
    (repo : Repository) (a : Assertion) (code : ℕ)
    → Tells repo a code
    → (item_passed a code ≡ true ↔ Holds repo a)
item_passed-Holds repo (tracked_text_contains id path value) code (there, back) =
    ((λ h. there (ground arith)), (λ h. let z = back h in ground arith))
item_passed-Holds repo (tracked_path_absent id value) code (there, back) = (
  (λ h. elim (Bool-cases (repo.tracks value)) [
    | inl y ↦ let z = back y in absurd (ground arith)
    | inr n ↦ n
  ]),
  (λ h. elim (Bool-cases (code == 0)) [
    | inl y ↦ let z = there (ground arith) in absurd (ground arith)
    | inr n ↦ rw n refl
  ]),
)

module _ (git : Git) where
  -- From the n-th call on, git shows the head at origin/main and a clean checkout.
  pub record IsClean (n : ℕ) : Type 0 where
    pub head : String
    pub at_head : git.prints n rev_parse_head ≡ ok head
    pub at_origin_main : git.prints (suc n) rev_parse_origin_main ≡ ok head
    pub unchanged : git.prints (suc (suc n)) git_status ≡ ok ""

  run_check-code :
      (a : Assertion) (n : ℕ)
      → Post (λ code m. (git.code n a ≡ ok code) × (m ≡ suc n)) (λ _. Unit {0}) (run_check git a n)
  unfolding run_check
  run_check-code a n = Post-weaken (ticks (git.code n a) n) (λ c m h. h) λ m h. tt

  query-prints :
      (q : Query) (n : ℕ)
      → Post
          (λ text m. (git.prints n q ≡ ok text) × (m ≡ suc n))
          (λ _. Fails (git.prints n q))
          (query git q n)
  unfolding query
  query-prints q n = ticks (git.prints n q) n

  check_all-AllHold :
      (repo : Repository) (assertions : List Assertion) (n : ℕ)
      → Truthful git repo
      → Post {E = Exception}
          (λ results m. (all (λ r. r.1) results ≡ true) ↔ AllHold repo assertions)
          (λ _. Unit {0})
          (check_all git assertions n)
  unfolding check_all
  check_all-AllHold repo [] n truth = pure-Post _ n ((λ _. tt), (λ _. refl))
  check_all-AllHold repo (a ∷ rest) n truth = >>=-Post _ _ n (run_check-code a n) λ code m (e, f).
      >>=-Post _ _ m (check_all-AllHold repo rest m truth) λ results k (there, back).
        let (holds, passes) = item_passed-Holds repo a code (truth.tells n a code e) in
        pure-Post _ k
          ((λ h. (holds (ground arith), there (ground arith))), (λ (p, c). rw (passes p) (back c)))

  aligned-IsClean :
      (n : ℕ) (head origin_main status : String)
      → git.prints n rev_parse_head ≡ ok head
      → git.prints (suc n) rev_parse_origin_main ≡ ok origin_main
      → git.prints (suc (suc n)) git_status ≡ ok status
      → (not (not (str_eq status "")) && str_eq head origin_main ≡ true ↔ IsClean n)
  aligned-IsClean n head origin_main status e g h = (
    (λ k.
        let blank : status ≡ "" = (eq_iff status "").0 (ground arith) in
        let same : head ≡ origin_main = (eq_iff head origin_main).0 (ground arith) in
        record { head = head; at_head = e; at_origin_main = rw same g; unchanged = rw blank at h }),
    (λ c.
        let one : head ≡ c.head = ok_same _ head c.head e c.at_head in
        let two : origin_main ≡ c.head = ok_same _ origin_main c.head g c.at_origin_main in
        let three : status ≡ "" = ok_same _ status "" h c.unchanged in
        rw (one, two, three) (eq_refl c.head)),
  )

  checkout-IsClean :
      (n : ℕ)
      → Post
          (λ c m. (m ≡ suc (suc (suc n))) × (is_aligned c ≡ true ↔ IsClean n))
          (λ _. IsClean n → ⊥)
          (checkout git n)
  unfolding checkout
  checkout-IsClean n =
      >>=-Post _ _ n
        (Post-weaken (query-prints rev_parse_head n) (λ t m h. h)
          λ m h c. ok-Fails _ c.head c.at_head h)
        λ head m (e, f).
          >>=-Post _ _ m
            (Post-weaken (query-prints rev_parse_origin_main m) (λ t m h. h)
              λ k h c.
                ok-Fails _ c.head c.at_origin_main
                  (subst (λ i. Fails (git.prints i rev_parse_origin_main)) f h))
            λ origin_main k (g, h).
              >>=-Post _ _ k
                (Post-weaken (query-prints git_status k) (λ t m h. h)
                  λ j z c.
                    ok-Fails _ "" c.unchanged
                      (subst (λ i. Fails (git.prints i git_status)) (h ∙ ap suc f) z))
                λ status j (z, l). pure-Post _ j (
                  l ∙ ap suc (h ∙ ap suc f),
                  aligned-IsClean n head origin_main status e
                      (subst (λ i. git.prints i rev_parse_origin_main ≡ ok origin_main) f g)
                      (subst (λ i. git.prints i git_status ≡ ok status) (h ∙ ap suc f) z),
                )

  module _ (local : Result Exception Verdict) where
    -- The verdict of the verifier on what was found.
    abbrev pub Passes : Answer → Type 0
    Passes answer =
        (v : Verdict) × (independent_verify local (canonical_result answer) ≡ ok v)
        × (is_pass v.verdict ≡ true)

    refused :
        ((v : Verdict) × (independent_verify local (some false) ≡ ok v)
          × (is_pass v.verdict ≡ true))
        → ⊥
    refused (v, e, h) =
        let same = ok_same (independent_verify local (some false)) v _ e refl in
        let wrong : false ≡ true = subst (λ x. is_pass x.verdict ≡ true) same h in ground arith

    report-Passes :
        (c : Checkout) (results : List (Assertion × Bool))
        → (Passes (report c results) ↔ (is_aligned c && all (λ r. r.1) results ≡ true))
    report-Passes c results = by (is_aligned c && all (λ r. r.1) results)
      where
        by :
            (b : Bool)
            → (((v : Verdict) × (independent_verify local (some b) ≡ ok v)
                  × (is_pass v.verdict ≡ true))
                ↔ (b ≡ true))
        by true = ((λ _. refl), (λ _. (_, refl, refl)))
        by false = ((λ p. absurd (refused p)), (λ h. absurd (ground arith)))

    report_on-Passes :
        (repo : Repository) (assertions : List Assertion) (n m : ℕ)
        (tried : Result Exception Checkout)
        → Truthful git repo
        → After
            (λ c k. (k ≡ suc (suc (suc n))) × (is_aligned c ≡ true ↔ IsClean n))
            (λ _. IsClean n → ⊥)
            (tried, m)
        → Post {E = Exception}
            (λ answer t. Passes answer ↔ (IsClean n × AllHold repo assertions))
            (λ _. Unit {0})
            (report_on git assertions tried m)
    report_on-Passes repo assertions n m (err x) truth h =
        pure-Post _ m ((λ p. absurd (refused p)), (λ (c, _). absurd (h c)))
    report_on-Passes repo assertions n m (ok c) truth (e, (there, back)) =
        >>=-Post _ _ m (check_all-AllHold repo assertions m truth) λ results k (each, all_of).
          let (passes, pass_if) = report-Passes c results in
          pure-Post _ k (
            (λ p. (there (ground arith), each (ground arith))),
            (λ (clean, held). pass_if (rw (back clean) (all_of held))),
          )

    -- Where assertions are declared, their verification returns and git's codes tell what the
    -- repository holds, the verifier's verdict is PASS exactly if git showed a clean checkout with its
    -- head at origin/main, every text that is asserted stands in its file, and every path that is to
    -- be absent is not tracked, whatever the local model says.
    pub verify_canonical_assertions-Confirmed :
        (repo : Repository) (a : Assertion) (rest : List Assertion) (n : ℕ)
        → Truthful git repo
        → Post {E = Exception}
            (λ answer t. Passes answer ↔ (IsClean n × AllHold repo (a ∷ rest)))
            (λ _. Unit {0})
            (verify_canonical_assertions git (a ∷ rest) n)
    unfolding verify_canonical_assertions
    verify_canonical_assertions-Confirmed repo a rest n truth =
        >>=-Post _ _ n (attempt_with (checkout git) n (checkout-IsClean n))
          λ tried m h. report_on-Passes repo (a ∷ rest) n m tried truth h
