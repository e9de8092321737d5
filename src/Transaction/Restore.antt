-- ===== src/Transaction/Restore.antt =====
-- A transaction that is begun, applied and rolled back leaves every file as it was.
use mathlib.Core.Path.{subst, fun_ext}
use lifeos_platform.Prelude.{String, ◌≡◌, ◌∙◌, sym, ap, Bool, Option, none, some, arith}
use lifeos_platform.Prelude.Keyed.{update}
use lifeos_platform.Prelude.Exec.{ok}
use lifeos_platform.Prelude.Post.{Post_ok}
use lifeos_platform.Transaction.World.{Platform, File, Prior, Manifest, World}
use lifeos_platform.Transaction.Begin.{Proposal, destination_of, begin}
use lifeos_platform.Transaction.Phases.{file_mode, apply, rollback}
use lifeos_platform.Transaction.Applied.{IsApplied, by_root, apply_exact}
use lifeos_platform.Transaction.Undone.{Restored, IsRolledBack, rollback_exact}
use lifeos_platform.Transaction.Begun.{Recorded, IsBegun, begin-IsBegun}

-- The file again, but owned by root.
abbrev pub root_owned : Option File → Option File
root_owned none = none
root_owned (some f) = some (record f { owner = 0 })

Restored-files :
    (os : Platform) (existing : Option File) (p : Prior) (id destination : String) (w : World)
    (files : String → Option File)
    → Recorded os existing p (w.backups id)
    → Restored os p id destination w files
    → files ≡ update w.files destination (root_owned existing)
Restored-files os none p id destination w files r h =
    subst (λ q. Restored os q id destination w files) r h
Restored-files os (some f) p id destination w files (e, b, regular) h =
    let (backup, x, y, z) = subst (λ q. Restored os q id destination w files) e h in
    let same : backup ≡ f = cc in
    z
    ∙ ap (λ (q : File). update w.files destination (some (by_root q.content f.mode))) same
    ∙ ap
        (λ (k : Bool).
          update w.files destination
            (some (record { content = f.content; mode = f.mode; owner = 0; regular = k })))
        (sym regular)

update_twice :
    (f : String → Option File) (k : String) (a b : Option File)
    → update (update f k a) k b ≡ update f k b
update_twice f k a b = fun_ext λ j. ground arith

restored_chain :
    (os : Platform) (id : String) (p : Proposal) (w w₁ w₂ w₃ : World) (m₁ n₁ m₂ n₂ m₃ : Manifest)
    → IsBegun os id p w m₁ w₁
    → w₁.manifests id ≡ some n₁
    → IsApplied os n₁ w₁ m₂ w₂
    → w₂.manifests id ≡ some n₂
    → IsRolledBack os n₂ w₂ m₃ w₃
    → w₃.files ≡ update w.files (destination_of p) (root_owned (w.files (destination_of p)))
restored_chain os id p w w₁ w₂ w₃ m₁ n₁ m₂ n₂ m₃ b f a g r =
    let e₁ : n₁ ≡ m₁ = cc (b.stored) in
    let i₁ : n₁.transaction_id ≡ id = ap (λ (q : Manifest). q.transaction_id) e₁ ∙ b.same_id in
    let e₂ : n₂ ≡ m₂ = cc (a.stored, ap (λ (q : String). w₂.manifests q) i₁) in
    let i₂ : n₂.transaction_id ≡ id =
      ap (λ (q : Manifest). q.transaction_id) e₂ ∙ (a.same_id ∙ i₁) in
    let d₁ : n₁.destination ≡ destination_of p =
      ap (λ (q : Manifest). q.destination) e₁ ∙ b.same_destination in
    let d₂ : n₂.destination ≡ destination_of p =
      ap (λ (q : Manifest). q.destination) e₂ ∙ (a.same_destination ∙ d₁) in
    let p₂ : n₂.prior ≡ m₁.prior =
      ap (λ (q : Manifest). q.prior) e₂ ∙ (a.same_prior ∙ ap (λ (q : Manifest). q.prior) e₁) in
    let recorded : Recorded os (w.files (destination_of p)) m₁.prior (w₂.backups id) =
      subst (λ q. Recorded os (w.files (destination_of p)) m₁.prior q)
        (ap (λ (q : String → Option File). q id) (sym a.same_backups)) b.recorded in
    let back : Restored os m₁.prior id (destination_of p) w₂ w₃.files =
      subst (λ q. Restored os q id (destination_of p) w₂ w₃.files) p₂
        (subst (λ q. Restored os n₂.prior q (destination_of p) w₂ w₃.files) i₂
          (subst (λ q. Restored os n₂.prior n₂.transaction_id q w₂ w₃.files) d₂ r.files)) in
    let existing : Option File = root_owned (w.files (destination_of p)) in
    Restored-files os (w.files (destination_of p)) m₁.prior id (destination_of p) w₂ w₃.files
      recorded back
    ∙ (ap (λ (q : String → Option File). update q (destination_of p) existing) a.files
        ∙ (ap
              (λ (q : String).
                update
                  (update w₁.files q
                    (some (by_root a.source.content (file_mode os n₁.destination))))
                  (destination_of p) existing)
              d₁
            ∙ (update_twice w₁.files (destination_of p) _ existing
                ∙ ap (λ (q : String → Option File). update q (destination_of p) existing)
                    b.same_files)))

-- After `begin`, `apply` and `rollback` of one transaction, each of which returned, every file is
-- as it was before `begin`, in its presence, content and mode; the destination is owned by root.
pub begin-apply-rollback :
    (os : Platform) (id reason : String) (p : Proposal) (w w₁ w₂ w₃ : World) (m₁ m₂ m₃ : Manifest)
    → begin os id p w ≡ (ok m₁, w₁)
    → apply os id w₁ ≡ (ok m₂, w₂)
    → rollback os id reason w₂ ≡ (ok m₃, w₃)
    → w₃.files ≡ update w.files (destination_of p) (root_owned (w.files (destination_of p)))
begin-apply-rollback os id reason p w w₁ w₂ w₃ m₁ m₂ m₃ h g k =
    let b = begin-IsBegun os id p w m₁ w₁ h in
    let (n₁, f₁, a) = Post_ok {R = λ _. Unit {0}} (apply_exact os id w₁) g in
    let (n₂, f₂, r) = Post_ok {R = λ _. Unit {0}} (rollback_exact os id reason w₂) k in
    restored_chain os id p w w₁ w₂ w₃ m₁ n₁ m₂ n₂ m₃ b f₁ a f₂ r
