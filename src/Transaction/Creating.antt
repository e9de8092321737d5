-- ===== src/Transaction/Creating.antt =====
-- `begin` keeps the invariant of the controller's store, also where it fails halfway, provided that
-- `shutil.rmtree` removes the directory of a transaction that could not be prepared.
use lifeos_platform.Prelude.{ℕ, String, ◌≡◌, refl, true, false, Option, none, some}
use lifeos_platform.Prelude.Exec.{raise, ◌>>=◌}
use lifeos_platform.Prelude.Post.{
  Post, Post-weaken, >>=-Post, guard-Post, try_except-Post, gets-Post, pure-Post, raise-Post,
}
use lifeos_platform.Transaction.World.{
  Platform, File, Manifest, World, Error, effect, set_timer, set_lock, set_backup,
}
use lifeos_platform.Transaction.Files.{save}
use lifeos_platform.Transaction.Begin.{
  Proposal, destination_of, lock_of, validate, acquire_lock, back_up, prepare, remove_tree,
  begin_locked, begin,
}
use lifeos_platform.Transaction.Rules.{
  Store, store, Quiet, Quiet-pure, Quiet-dir, Quiet-now, Quiet-effect, Quiet-raise_if, Quiet-gets,
  Quiet-sha256, Quiet-bind, Quiet-systemctl, quietly, Quiet-Post, effect-Post,
}
use lifeos_platform.Transaction.Guarded.{IsGuarded, IsFree, with_manifest, unlock-IsGuarded}
use lifeos_platform.Transaction.Opening.{
  IsNew, IsPending, IsLocked, IsHoused, IsOpen, IsLocked-IsPending, IsOpen-IsPending, take-IsLocked,
  make-IsHoused, create-IsOpen, keep-IsOpen, remove-IsGuarded, remove-IsFree,
}
use lifeos_platform.Transaction.Keeps.{Keeps}

module _ (os : Platform) where
  Quiet-validate : (p : Proposal) → Quiet (validate os p)
  unfolding validate
  Quiet-validate p = Quiet-bind _ _ (Quiet-raise_if _ _) λ _.
      Quiet-bind _ _ (Quiet-raise_if _ _) λ _. Quiet-bind _ _ (Quiet-raise_if _ _) λ _.
        Quiet-bind _ _ (Quiet-gets _) λ source. Quiet-bind _ _ (Quiet-raise_if _ _) λ _.
          Quiet-bind _ _ (Quiet-raise_if _ _) λ _. Quiet-bind _ _ (Quiet-sha256 os source) λ actual.
            Quiet-bind _ _ (Quiet-raise_if _ _) λ _. Quiet-bind _ _ (Quiet-raise_if _ _) λ _.
              Quiet-bind _ _ (Quiet-raise_if _ _)
                λ _. Quiet-bind _ _ (Quiet-raise_if _ _) (λ _. Quiet-pure actual)

  Quiet-back_up : (id : String) (f : Option File) → Quiet (back_up os id f)
  unfolding back_up
  Quiet-back_up id none = Quiet-pure _
  Quiet-back_up id (some f) = Quiet-bind _ _ (Quiet-raise_if _ _) λ _.
      Quiet-bind _ _ (Quiet-effect os (set_backup id f) (λ w. refl)) λ _.
        Quiet-bind _ _ (Quiet-gets _) λ b.
          Quiet-bind _ _ (Quiet-sha256 os b)
            λ _. Quiet-bind _ _ (Quiet-effect os (λ w. w) (λ w. refl)) (λ _. Quiet-pure _)

  -- A save of `m`: what held before it, and what holds of the saved manifest after it.
  save_rule :
      (P R : Store → Type 0) (N : Manifest → Store → Type 0) (m : Manifest) (w : World)
      → ((s : Store) → P s → R s)
      → ((n : Manifest) (s : Store) → N n s → R s)
      → ((time : ℕ) (s : Store)
          → P s
          → N (record m { updated_at = time }) (with_manifest (record m { updated_at = time }) s))
      → P (store w)
      → Post (λ n t. N n (store t)) (λ t. R (store t)) (save os m w)
  unfolding save
  save_rule P R N m w pr nr step h = quietly os P R _ _ w (Quiet-now os) pr h λ time w h.
      quietly os P R _ _ w (Quiet-dir os _) pr h λ _ w h.
        let n : N (record m { updated_at = time })
            (with_manifest (record m { updated_at = time }) (store w)) =
          step time (store w) h in
        >>=-Post _ _ _ (effect-Post os _ w (pr _ h) (nr _ _ n) n) (λ _ t k. pure-Post _ t k)

module _ (os : Platform) (removed : (n : ℕ) → os.tree_removed n ≡ true)
    (frozen : String → Option Manifest) (id : String) (p : Proposal) where
  abbrev lock : String
  lock = lock_of os (destination_of p)

  abbrev Pending : Store → Type 0
  Pending = IsPending frozen id lock

  prepare-IsPending :
      (expected : String) (w : World)
      → IsLocked frozen id lock (store w)
      → Post
          (λ _ t. IsGuarded frozen (store t))
          (λ t. Pending (store t))
          (prepare os id p expected w)
  unfolding prepare
  prepare-IsPending expected w h =
      let Housed = IsHoused frozen id lock in
      let Open = IsOpen frozen id lock in
      let pr : (s : Store) → Housed s → Pending s =
        λ s h. IsLocked-IsPending frozen id lock s h.before in
      let made = make-IsHoused frozen id lock (store w) h in
      >>=-Post {Q' = λ _ t. Housed (store t)} _ _ _
        (effect-Post os _ w (IsLocked-IsPending frozen id lock _ h) (pr _ made) made)
        λ _ w h.
          quietly os Housed Pending _ _ w (Quiet-effect os (λ w. w) (λ w. refl)) pr h λ _ w h.
            gets-Post _ _ w (
              quietly os Housed Pending _ _ w (Quiet-back_up os id _) pr h λ prior w h.
                quietly os Housed Pending _ _ w (Quiet-now os) pr h λ created w h.
                  >>=-Post _ _ _
                    (save_rule os Housed Pending Open _ w pr (IsOpen-IsPending frozen id lock)
                      (λ time s h. create-IsOpen frozen id lock _ s refl refl refl h) h)
                    λ m w o.
                      quietly os (Open m) Pending _ _ w
                        (Quiet-systemctl os (set_timer m.timer true) (λ w. refl))
                        (IsOpen-IsPending frozen id lock m) o
                        λ _ w o.
                          quietly os (Open m) Pending _ _ w (Quiet-now os)
                            (IsOpen-IsPending frozen id lock m) o
                            λ at w o.
                              Post-weaken
                                (save_rule os (Open m) Pending Open _ w
                                  (IsOpen-IsPending frozen id lock m)
                                  (IsOpen-IsPending frozen id lock)
                                  (λ time s o.
                                    keep-IsOpen frozen id lock _ s o.same_id o.same_lock refl m o)
                                  o)
                                (λ n t o. o.guarded) (λ t k. k))

  remove_tree-IsFree :
      (w : World)
      → Pending (store w)
      → Post
          (λ _ t. IsGuarded frozen (store t) × IsFree lock (store t))
          (λ t. IsGuarded frozen (store t))
          (remove_tree os id w)
  unfolding remove_tree
  remove_tree-IsFree w h = rw (removed w.calls) (record {
    holds = (remove-IsGuarded frozen id lock (store w) h, remove-IsFree frozen id lock (store w) h);
  })

  -- The handler: the directory goes first, then the lock.
  give_up-IsGuarded :
      (e : Error) (w : World)
      → Pending (store w)
      → Post
          (λ (_ : Manifest) t. IsGuarded frozen (store t))
          (λ t. IsGuarded frozen (store t))
          ((remove_tree os id >>= λ _. effect os (set_lock lock false) >>= λ _. raise e) w)
  give_up-IsGuarded e w h = >>=-Post _ _ _ (remove_tree-IsFree w h) λ _ w (g, free).
      let u = unlock-IsGuarded frozen (store w) lock g free in
      >>=-Post _ _ _ (effect-Post os _ w g u u) (λ _ w u. raise-Post e w u)

  begin_locked-IsGuarded :
      (expected : String) (w : World)
      → IsLocked frozen id lock (store w)
      → Post
          (λ _ t. IsGuarded frozen (store t))
          (λ t. IsGuarded frozen (store t))
          (begin_locked os id p expected w)
  unfolding begin_locked
  begin_locked-IsGuarded expected w h =
      try_except-Post _ _ w (prepare-IsPending expected w h) give_up-IsGuarded

  acquire_lock-IsLocked :
      (w : World)
      → IsNew frozen id lock (store w)
      → Post
          (λ _ t. IsLocked frozen id lock (store t))
          (λ t. IsGuarded frozen (store t))
          (acquire_lock os lock w)
  unfolding acquire_lock
  acquire_lock-IsLocked w h =
      let New = IsNew frozen id lock in
      let quiet = Quiet-effect os (λ w. w) (λ w. refl) in
      quietly os New (IsGuarded frozen) _ _ w quiet (λ s h. h.guarded) h
        λ _ w h.
          quietly os New (IsGuarded frozen) _ _ w quiet (λ s h. h.guarded) h
            λ _ w h. gets-Post _ _ w (
              guard-Post _ _ _ w h.guarded λ unheld.
                let l = take-IsLocked frozen id lock (store w) h unheld in
                >>=-Post {Q' = λ _ t. IsLocked frozen id lock (store t)} _ _ _
                  (effect-Post os _ w h.guarded l.guarded l)
                  λ _ w l.
                    Quiet-Post os (IsLocked frozen id lock) (IsGuarded frozen) _ w quiet
                      (λ s l. l.guarded) l)

  pub begin-Keeps : Keeps os frozen (begin os id p)
  unfolding begin
  begin-Keeps w g =
      let New = IsNew frozen id lock in
      quietly os (IsGuarded frozen) (IsGuarded frozen) _ _ w (Quiet-dir os id) (λ s h. h) g
        λ _ w g. gets-Post _ _ w (
          guard-Post _ _ _ w g λ unused.
            quietly os New (IsGuarded frozen) _ _ w (Quiet-validate os p) (λ s h. h.guarded)
              (record { guarded = g; absent = unused })
              λ expected w h.
                >>=-Post _ _ _ (acquire_lock-IsLocked w h)
                  λ _ w l. begin_locked-IsGuarded expected w l)
