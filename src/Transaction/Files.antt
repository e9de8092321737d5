-- ===== src/Transaction/Files.antt =====
-- homelab/live/usr/local/lib/lifeos_transaction.py, the helpers of the controller: the check of an
-- identifier, loading and saving a manifest, systemctl, and replacing a file through a temporary.
use Prim.Native.Char.{Char, code}
use Prim.Native.String.{count}
use lifeos_platform.Prelude.{
  ℕ, String, Bool, true, not, ◌&&◌, ◌||◌, Option, none, some, List, [], ◌∷◌, ltb, ◌==◌, any, str_eq,
  contains,
}
use lifeos_platform.Prelude.Exec.{pure, raise, gets, try_except, raise_if, ◌>>=◌, ◌>>◌}
use lifeos_platform.Transaction.World.{
  Platform, File, Manifest, World, Error, Method, invalid_id, unavailable, systemctl_failed, effect,
  touch, now, run, read, set_file, set_manifest,
}

abbrev pub all_chars : (Char → Bool) → String → Bool
all_chars p String.[] = true
all_chars p (String.◌∷◌ c s) = p c && all_chars p s

abbrev pub allowed_destinations : List String
allowed_destinations = "/usr/local/libexec" ∷ []

abbrev pub protected : List String
protected =
    "/usr/local/sbin/lifeos-transaction-controller" ∷ "/usr/local/sbin/lifeos-rollback"
    ∷ "/usr/local/lib/lifeos_transaction.py" ∷ "/etc/systemd/system/lifeos-rollback@.service"
    ∷ "/etc/systemd/system/lifeos-rollback@.timer" ∷ []

module _ (os : Platform) where
  unfoldable pub inside : String → List String → Bool
  inside path allowed =
      let resolved = os.resolve path in
      any (λ parent. str_eq resolved parent || contains (os.parents resolved) parent) allowed

  -- `inside(destination, ALLOWED_DESTINATIONS)`, and the test against PROTECTED
  unfoldable pub is_allowlisted : String → Bool
  unfolding inside
  is_allowlisted destination =
      inside destination allowed_destinations && not (contains protected (os.resolve destination))

  unfoldable pub id_char : Char → Bool
  id_char c = os.is_alnum c || (code c == b'.' || (code c == b'_' || code c == b'-'))

  unfoldable pub valid_id : String → Bool
  unfolding id_char
  valid_id id = not (str_eq id "") && (not (ltb 100 (count id)) && all_chars id_char id)

  -- `_dir`: the identifier stands for its directory.
  unfoldable pub dir : String → Method (Unit {0})
  unfolding valid_id
  dir id = raise_if (not (valid_id id)) invalid_id

  unfoldable pub found_manifest : Option Manifest → Method Manifest
  found_manifest none = raise unavailable
  found_manifest (some m) = pure m

  -- `_load`
  unfoldable pub load : String → Method Manifest
  load id = do
    dir id
    try_except (touch os) (λ _. raise unavailable)
    found ← gets (λ w. w.manifests id)
    found_manifest found

  -- `_save`, which also updates the manifest that its caller holds
  unfoldable pub save : Manifest → Method Manifest
  save m = do
    t ← now os
    dir m.transaction_id
    let m' = record m { updated_at = t }
    effect os (set_manifest m')
    pure m'

  -- `_systemctl`
  unfoldable pub systemctl : (World → World) → Method (Unit {0})
  systemctl f = do succeeded ← run os f; raise_if (not succeeded) systemctl_failed

  -- `sha256(path)`
  unfoldable pub sha256 : Option File → Method String
  sha256 file = do f ← read os file; pure (os.digest f.content)

  -- mkstemp, then `body`, and the unlinking of the temporary in `finally`
  unfoldable pub with_temporary : Method (Unit {0}) → Method (Unit {0})
  with_temporary body = do touch os; try_except body (λ (e : Error). touch os >> raise e); touch os

  -- copyfile to the temporary, chown and chmod of it, and its `os.replace` over the destination
  unfoldable pub replace_file : (source : World → Option File) → String → ℕ → Method (Unit {0})
  replace_file source destination mode = with_temporary do
    file ← gets source
    f ← read os file
    touch os
    effect os (
        set_file destination
          (some (record { content = f.content; mode = mode; owner = 0; regular = true })))
