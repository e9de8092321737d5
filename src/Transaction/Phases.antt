-- ===== src/Transaction/Phases.antt =====
-- homelab/live/usr/local/lib/lifeos_transaction.py, the methods of `Controller` after `begin`:
-- `apply`, `verify`, `commit`, `rollback`, `status` and `expire`.
use lifeos_platform.Prelude.{
  ℕ, String, Bool, true, false, not, ◌&&◌, ◌||◌, Option, none, some, List, [], ◌∷◌, ◌++◌, leb, ltb,
  all, str_eq, is_text, is_empty, if◌then◌else◌,
}
use lifeos_platform.Prelude.Exec.{
  ok, err, pure, raise, gets, try_except, raise_if, ◌>>=◌, ◌>>◌, attempt,
}
use lifeos_platform.Transaction.World.{
  Platform, Check, not_dict, dict, Prior, absent, present, TransactionState, armed, applying,
  verifying, probation, rolling_back, committed, rolled_back, failed, Manifest, Evidence, Proof,
  Error, Method, not_armed, source_changed, not_verifying, verification_failed, not_probation,
  deadline_unavailable, deadline_expired, evidence_unavailable, evidence_rejected, cannot_rollback,
  backup_mismatch, unbound_local, key_error, effect, touch, now, run, set_timer, set_file, set_lock,
  set_proof,
}
use lifeos_platform.Transaction.Files.{dir, load, save, systemctl, sha256, replace_file}

abbrev pub is_armed : TransactionState → Bool
is_armed armed = true
is_armed _ = false

abbrev pub is_verifying : TransactionState → Bool
is_verifying verifying = true
is_verifying _ = false

abbrev pub is_probation : TransactionState → Bool
is_probation probation = true
is_probation _ = false

-- `{"COMMITTED", "ROLLED_BACK"}`
abbrev pub is_settled : TransactionState → Bool
is_settled committed = true
is_settled rolled_back = true
is_settled _ = false

-- `TERMINAL`
abbrev pub is_terminal : TransactionState → Bool
is_terminal committed = true
is_terminal rolled_back = true
is_terminal failed = true
is_terminal _ = false

-- `json[key]`
abbrev pub required : Option String → Method String
required none = raise key_error
required (some s) = pure s

-- The test of `commit` on the stored evidence.
unfoldable pub is_accepted : Proof → Bool
is_accepted proof =
    proof.accepted
    && (is_text proof.derived_by "protected-controller"
        && (not (is_empty proof.evidence) && all (λ e. e.passed) proof.evidence))

module _ (os : Platform) where
  unfoldable pub file_mode : String → ℕ
  file_mode destination =
      let s = os.suffix destination in
      if str_eq s ".service" || (str_eq s ".timer" || str_eq s ".conf") then 0o644 else 0o755

  unfoldable pub apply : String → Method Manifest
  unfolding file_mode
  apply id = do
    manifest ← load os id
    raise_if (not (is_armed manifest.state)) not_armed
    source ← gets (λ w. w.files manifest.source)
    actual ← sha256 os source
    raise_if (not (str_eq actual manifest.intended_sha256)) source_changed
    applying_manifest ← save os (record manifest { state = applying })
    replace_file os (λ w. w.files manifest.source) manifest.destination
        (file_mode manifest.destination)
    save os (record applying_manifest { state = verifying })

  unfoldable pub restore : Manifest → Prior → Method (Unit {0})
  restore manifest absent = effect os (set_file manifest.destination none)
  restore manifest (present digest mode) = do
    dir os manifest.transaction_id
    backup ← gets (λ w. w.backups manifest.transaction_id)
    actual ← sha256 os backup
    raise_if (not (str_eq actual digest)) backup_mismatch
    replace_file os (λ w. w.backups manifest.transaction_id) manifest.destination mode

  unfoldable pub rollback : String → String → Method Manifest
  rollback id reason = do
    loaded ← load os id
    raise_if (is_settled loaded.state) cannot_rollback
    manifest ← save os (record loaded { state = rolling_back })
    restore manifest manifest.prior
    at ← now os
    disarmed ← run os (set_timer manifest.timer false)
    rolled ← save os (record manifest {
      state = rolled_back;
      rollback = some (record { reason = reason; at = at; watchdog_disarmed = disarmed });
    })
    effect os (set_lock manifest.resource_lock false)
    pure rolled

  -- One round of the loop of `verify`: the evidence that it appends, and `passed`. A check of
  -- another type leaves `passed` as the round before left it.
  unfoldable pub inspect : Check → Option Bool → Method (List Evidence × Bool)
  inspect not_dict last = raise key_error
  inspect (dict none path expected unit) last = raise key_error
  inspect (dict (some type) path expected unit) last =
      if str_eq type "file_sha256"
      then (do
        p ← required path
        file ← gets (λ w. w.files p)
        actual ← sha256 os file
        e ← required expected
        let passed = str_eq actual e
        pure (record { type = type; passed = passed; detail = actual } ∷ [], passed))
      else if str_eq type "service_active"
      then (do
        u ← required unit
        passed ← run os (λ w. w)
        pure (record { type = type; passed = passed; detail = u } ∷ [], passed))
      else elim last [ none ↦ raise unbound_local | some b ↦ pure ([], b) ]

  -- The loop of `verify`: the evidence so far, and the exception that ended the loop.
  unfoldable pub run_checks :
      List Check → Option Bool → List Evidence → Method (List Evidence × Option Error)
  run_checks [] last evidence = pure (evidence, none)
  run_checks (c ∷ cs) last evidence = do
    outcome ← attempt (inspect c last)
    elim outcome [
      | err e ↦ pure (evidence, some e)
      | ok (found, passed) ↦
          if passed
          then run_checks cs (some passed) (evidence ++ found)
          else pure (evidence ++ found, some verification_failed)
    ]

  unfoldable pub settle_verification :
      String → Manifest → List Evidence × Option Error → Method Proof
  settle_verification id manifest (evidence, some e) = do
    dir os id
    effect os (
        set_proof id
          (record { accepted = false; derived_by = none; at = none; evidence = evidence }))
    rollback id "critical verification failure"
    raise e
  settle_verification id manifest (evidence, none) = do
    at ← now os
    let proof : Proof = record {
      accepted = true;
      derived_by = some "protected-controller";
      at = some at;
      evidence = evidence;
    }
    dir os id
    effect os (set_proof id proof)
    save os (record manifest { state = probation; verified = true })
    pure proof

  unfoldable pub verify : String → Method Proof
  verify id = do
    manifest ← load os id
    raise_if (not (is_verifying manifest.state)) not_verifying
    result ← run_checks manifest.checks none []
    settle_verification id manifest result

  unfoldable pub commit_verified : String → Manifest → Option Proof → Method Manifest
  commit_verified id manifest none = raise evidence_unavailable
  commit_verified id manifest (some proof) = do
    raise_if (not (is_accepted proof)) evidence_rejected
    systemctl os (set_timer manifest.timer false)
    at ← now os
    saved ← save os (record manifest { state = committed; committed_at = some at })
    effect os (set_lock manifest.resource_lock false)
    pure saved

  unfoldable pub commit_before : String → Manifest → Option ℕ → Method Manifest
  commit_before id manifest none = raise deadline_unavailable
  commit_before id manifest (some deadline) = do
    t ← now os
    if leb deadline t
        then (do rollback id "health deadline expired"; raise deadline_expired)
        else (do
          dir os id
          try_except (touch os) (λ _. raise evidence_unavailable)
          proof ← gets (λ w. w.proofs id)
          commit_verified id manifest proof)

  unfoldable pub commit : String → Method Manifest
  commit id = do
    manifest ← load os id
    raise_if (not (is_probation manifest.state)) not_probation
    commit_before id manifest manifest.deadline

  unfoldable pub status : String → Method Manifest
  status id = load os id

  unfoldable pub expire_before : String → Manifest → Option ℕ → Method Manifest
  expire_before id manifest none = rollback id "transaction deadline unavailable"
  expire_before id manifest (some deadline) = do
    t ← now os
    if ltb t deadline then pure manifest else rollback id "health deadline expired"

  unfoldable pub expire : String → Method Manifest
  expire id = do
    manifest ← load os id
    if is_terminal manifest.state
        then pure manifest
        else expire_before id manifest manifest.deadline
