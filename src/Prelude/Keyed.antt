-- ===== src/Prelude/Keyed.antt =====
-- Stores keyed by a text, as total functions: a directory of files, a table of manifests.
use Prim.Native.String.{String}
use mathlib.Core.Path.{◌≡◌}
use mathlib.Core.Bool.{false}
use text.Mathlib.Text.{◌==◌ as str_eq}
use text.Mathlib.TextPositions.{eq_refl}
use lifeos_platform.Prelude.Tests.{if◌then◌else◌}

module _ {ℓ} {V : Type ℓ} where
  abbrev pub update : (String → V) → String → V → String → V
  update m k v j = if str_eq k j then v else m j

  pub update_self : (m : String → V) (k : String) (v : V) → update m k v k ≡ v
  update_self m k v = simp eq_refl

  pub update_other :
      (m : String → V) (k j : String) (v : V) → str_eq k j ≡ false → update m k v j ≡ m j
  update_other m k j v h = simp h
