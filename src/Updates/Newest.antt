-- ===== src/Updates/Newest.antt =====
-- Which release `coalesce` of engineer/managed_updates.py selects.
use mathlib.Core.Path.{subst}
use mathlib.Core.List.{Memᴰ}
use mathlib.Core.List.Memᴰ as Memᴰ
use lifeos_platform.Prelude.{
  ◌≡◌, refl, sym, ap, ◌∙◌, ◌↔◌, inl, inr, Bool, true, false, List, [], ◌∷◌, arith, if◌then◌else◌,
  Bool-cases,
}
use lifeos_platform.Prelude.Exec.{ok}
use lifeos_platform.Prelude.Outcome.{bind-returns}
use lifeos_platform.Updates.Contract.{
  Version, Texts, Release, version_lt, release_version, stable, newest, newest_of, coalesce,
}

version_lt_trans :
    (a b c : Version) → version_lt b a ≡ false → version_lt c b ≡ false → version_lt c a ≡ false
unfolding version_lt
version_lt_trans a b c h k = ground arith

version_lt_asym : (a b : Version) → version_lt a b ≡ true → version_lt b a ≡ false
unfolding version_lt
version_lt_asym a b h = ground arith

version_lt_irrefl : (a : Version) → version_lt a a ≡ false
unfolding version_lt
version_lt_irrefl a = ground arith

version_lt_antisym : (a b : Version) → version_lt a b ≡ false → version_lt b a ≡ false → a ≡ b
unfolding version_lt
version_lt_antisym a b h k = ground arith

module _ (py : Texts) where
  -- The release has the version, and no release of the list has a greater one, or one that is no
  -- semantic version.
  pub record IsNewest (r : Release) (rs : List Release) : Type 0 where
    pub version : Version
    pub place : Memᴰ r rs
    pub parsed : release_version py r ≡ ok version
    pub greatest :
        (s : Release)
        → Memᴰ s rs
        → (w : Version) × (release_version py s ≡ ok w) × (version_lt version w ≡ false)

  same_version :
      (r : Release) (v w : Version)
      → release_version py r ≡ ok v
      → release_version py r ≡ ok w
      → v ≡ w
  same_version r v w h k = ground arith

  -- A release that is not newer than one of the list does not count.
  dropped-IsNewest :
      (r a x : Release) (rs : List Release) (v w : Version) (n : IsNewest r rs)
      → Memᴰ a rs
      → release_version py a ≡ ok v
      → release_version py x ≡ ok w
      → version_lt v w ≡ false
      → (u : Version) × (release_version py x ≡ ok u) × (version_lt n.version u ≡ false)
  dropped-IsNewest r a x rs v w n m e f h =
      let (v', e', k) = n.greatest a m in
      let same : version_lt n.version v ≡ false =
        subst (λ u. version_lt n.version u ≡ false) (same_version a v' v e' e) k in
      (w, f, version_lt_trans w v n.version h same)

  newer-IsNewest :
      (r best s : Release) (rs : List Release) (v w : Version)
      → release_version py best ≡ ok v
      → release_version py s ≡ ok w
      → version_lt v w ≡ true
      → IsNewest r (s ∷ rs)
      → IsNewest r (best ∷ s ∷ rs)
  newer-IsNewest r best s rs v w e f h n = record {
    version = n.version;
    place = Memᴰ.tail n.place;
    parsed = n.parsed;
    greatest = λ x m. by x m;
  }
    where
      by :
          (x : Release)
          → Memᴰ x (best ∷ s ∷ rs)
          → (u : Version) × (release_version py x ≡ ok u) × (version_lt n.version u ≡ false)
      by x (Memᴰ.head i) =
          dropped-IsNewest r s x (s ∷ rs) w v n (Memᴰ.head refl) f (ap (release_version py) i ∙ e)
            (version_lt_asym v w h)
      by x (Memᴰ.tail m) = n.greatest x m

  older-IsNewest :
      (r best s : Release) (rs : List Release) (v w : Version)
      → release_version py best ≡ ok v
      → release_version py s ≡ ok w
      → version_lt v w ≡ false
      → IsNewest r (best ∷ rs)
      → IsNewest r (best ∷ s ∷ rs)
  older-IsNewest r best s rs v w e f h n = record {
    version = n.version;
    place = skip n.place;
    parsed = n.parsed;
    greatest = λ x m. by x m;
  }
    where
      skip : Memᴰ r (best ∷ rs) → Memᴰ r (best ∷ s ∷ rs)
      skip (Memᴰ.head i) = Memᴰ.head i
      skip (Memᴰ.tail m) = Memᴰ.tail (Memᴰ.tail m)

      by :
          (x : Release)
          → Memᴰ x (best ∷ s ∷ rs)
          → (u : Version) × (release_version py x ≡ ok u) × (version_lt n.version u ≡ false)
      by x (Memᴰ.head i) = n.greatest x (Memᴰ.head i)
      by x (Memᴰ.tail (Memᴰ.head i)) =
          dropped-IsNewest r best x (best ∷ rs) v w n (Memᴰ.head refl) e
            (ap (release_version py) i ∙ f) h
      by x (Memᴰ.tail (Memᴰ.tail m)) = n.greatest x (Memᴰ.tail m)

  alone-IsNewest : (r : Release) (v : Version) → release_version py r ≡ ok v → IsNewest r (r ∷ [])
  alone-IsNewest r v e = record {
    version = v;
    place = Memᴰ.head refl;
    parsed = e;
    greatest =
        λ x m. (v, ap (release_version py) (Memᴰ.eq_of_singleton m) ∙ e, version_lt_irrefl v);
  }

  newest-IsNewest :
      (best : Release) (v : Version) (rs : List Release) (r : Release)
      → release_version py best ≡ ok v
      → newest py best v rs ≡ ok r
      → IsNewest r (best ∷ rs)
  unfolding newest
  newest-IsNewest best v [] r e h =
      subst (λ r. IsNewest r (best ∷ [])) (ground arith) (alone-IsNewest best v e)
  newest-IsNewest best v (s ∷ rs) r e h =
      let (w, f, k) = bind-returns (release_version py s) _ r h in
      let newer = newest-IsNewest s w rs r f in
      let older = newest-IsNewest best v rs r e in
      elim (Bool-cases (version_lt v w)) [
        | inl y ↦ newer-IsNewest r best s rs v w e f y (newer (ground arith))
        | inr n ↦ older-IsNewest r best s rs v w e f n (older (ground arith))
      ]

  newest_of-IsNewest : (rs : List Release) (r : Release) → newest_of py rs ≡ ok r → IsNewest r rs
  unfolding newest_of
  newest_of-IsNewest [] r h = absurd (ground arith)
  newest_of-IsNewest (s ∷ rs) r h =
      let (v, e, k) = bind-returns (release_version py s) _ r h in newest-IsNewest s v rs r e k

module _ (py : Texts) where
  stable-kept :
      (b : Bool) (x r : Release) (rs es : List Release)
      → r.prerelease ≡ b
      → (Memᴰ x es → Memᴰ x rs × (x.prerelease ≡ false))
      → Memᴰ x (if b then es else r ∷ es)
      → Memᴰ x (r ∷ rs) × (x.prerelease ≡ false)
  stable-kept true x r rs es h rest m = let (a, b) = rest m in (Memᴰ.tail a, b)
  stable-kept false x r rs es h rest (Memᴰ.head e) =
      (Memᴰ.head e, ap (λ (y : Release). y.prerelease) e ∙ h)
  stable-kept false x r rs es h rest (Memᴰ.tail m) = let (a, b) = rest m in (Memᴰ.tail a, b)

  stable_sound :
      (x : Release) (rs : List Release) → Memᴰ x (stable py rs) → Memᴰ x rs × (x.prerelease ≡ false)
  unfolding stable
  stable_sound x [] m = elim m [ ]
  stable_sound x (r ∷ rs) m =
      stable-kept r.prerelease x r rs (stable py rs) refl (stable_sound x rs) m

  stable-found :
      (b : Bool) (x r : Release) (rs es : List Release)
      → r.prerelease ≡ b
      → x.prerelease ≡ false
      → (Memᴰ x rs → Memᴰ x es)
      → Memᴰ x (r ∷ rs)
      → Memᴰ x (if b then es else r ∷ es)
  stable-found true x r rs es h k rest (Memᴰ.head e) =
      let same : x.prerelease ≡ true = ap (λ (y : Release). y.prerelease) e ∙ h in
      absurd (ground arith)
  stable-found true x r rs es h k rest (Memᴰ.tail m) = rest m
  stable-found false x r rs es h k rest (Memᴰ.head e) = Memᴰ.head e
  stable-found false x r rs es h k rest (Memᴰ.tail m) = Memᴰ.tail (rest m)

  stable_complete :
      (x : Release) (rs : List Release) → x.prerelease ≡ false → Memᴰ x rs → Memᴰ x (stable py rs)
  unfolding stable
  stable_complete x [] h m = elim m [ ]
  stable_complete x (r ∷ rs) h m =
      stable-found r.prerelease x r rs (stable py rs) refl h (stable_complete x rs h) m

  -- The release is a stable one of the list, and every stable one has a version that is not newer.
  pub record IsLatest (r : Release) (rs : List Release) : Type 0 where
    pub version : Version
    pub place : Memᴰ r rs
    pub is_stable : r.prerelease ≡ false
    pub parsed : release_version py r ≡ ok version
    pub greatest :
        (s : Release)
        → Memᴰ s rs
        → s.prerelease ≡ false
        → (w : Version) × (release_version py s ≡ ok w) × (version_lt version w ≡ false)

-- The release that `coalesce` selects is a stable one of the list, and every stable release of the
-- list has a semantic version that is not newer.
pub coalesce-IsLatest :
    (py : Texts) (rs : List Release) (r : Release) → coalesce py rs ≡ ok r → IsLatest py r rs
unfolding coalesce
coalesce-IsLatest py rs r h =
    let n = newest_of-IsNewest py (stable py rs) r h in
    let (place, is_stable) = stable_sound py r rs n.place in
    record {
      version = n.version;
      place = place;
      is_stable = is_stable;
      parsed = n.parsed;
      greatest = λ s m k. n.greatest s (stable_complete py s rs k m);
    }

-- Two lists with the same releases, in any order and however often, yield the same version.
pub coalesce_version :
    (py : Texts) (rs ss : List Release) (r s : Release)
    → ((x : Release) → Memᴰ x rs ↔ Memᴰ x ss)
    → coalesce py rs ≡ ok r
    → coalesce py ss ≡ ok s
    → release_version py r ≡ release_version py s
coalesce_version py rs ss r s same h k =
    let a = coalesce-IsLatest py rs r h in
    let b = coalesce-IsLatest py ss s k in
    let (v, e, f) = a.greatest s ((same s).1 b.place) b.is_stable in
    let (w, g, i) = b.greatest r ((same r).0 a.place) a.is_stable in
    let left : version_lt a.version b.version ≡ false =
      subst (λ u. version_lt a.version u ≡ false) (same_version py s v b.version e b.parsed) f in
    let right : version_lt b.version a.version ≡ false =
      subst (λ u. version_lt b.version u ≡ false) (same_version py r w a.version g a.parsed) i in
    a.parsed ∙ (ap ok (version_lt_antisym a.version b.version left right) ∙ sym b.parsed)
