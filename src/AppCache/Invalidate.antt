-- ===== src/AppCache/Invalidate.antt =====
-- What `invalidate` of appcache/cache.go removes from a cache.
use package.text.Mathlib.Text.{◌==◌ as str_eq}
use package.text.Mathlib.TextEquality.{eq_iff}
use flashpoint_submission_sy.Prelude.{
  String, ◌≡◌, refl, sym, ◌∙◌, inl, inr, Bool, false, ◌&&◌, Bool-cases, Option, none, some, List,
  [], ◌∷◌, any, if◌then◌else◌, All, All-map, All-zip, arith, if_both, ◌||◌,
}
use flashpoint_submission_sy.AppCache.Keyed.{Entry, find, Distinct, find-unlink}
use flashpoint_submission_sy.AppCache.Cache.{
  Cache, remove, meets, drop_changed, invalidate_each, invalidate,
}
use flashpoint_submission_sy.AppCache.Wellformed.{
  IsWellformed, remove-IsWellformed, counters-IsWellformed,
}

find-drop_changed :
    (k : String) (changed : List String) (e : Entry) (c : Cache)
    → find k (drop_changed changed e c).entries
      ≡ (if meets e.deps changed && str_eq e.key k then none else find k c.entries)
unfolding drop_changed remove
find-drop_changed k changed e c = elim (Bool-cases (meets e.deps changed)) [
  | inl t ↦ rw t (find-unlink k e.key c.entries)
  | inr t ↦ rw t refl
]

find-invalidate_each :
    (k : String) (changed : List String) (es : List Entry) (c : Cache)
    → find k (invalidate_each changed es c).entries
      ≡ (if any (λ e. meets e.deps changed && str_eq e.key k) es then none else find k c.entries)
unfolding invalidate_each
find-invalidate_each k changed [] c = refl
find-invalidate_each k changed (e ∷ es) c =
    find-invalidate_each k changed es (drop_changed changed e c)
    ∙ joined (any (λ x. meets x.deps changed && str_eq x.key k) es)
  where
    joined :
        (b : Bool)
        → (if b then none else find k (drop_changed changed e c).entries)
          ≡ (if ((meets e.deps changed && str_eq e.key k) || b) then none else find k c.entries)
    joined b = rw (find-drop_changed k changed e c) (ground arith)

-- A test of the element for a key, false where there is none.
abbrev pub holds_at : (Entry → Bool) → Option Entry → Bool
holds_at p none = false
holds_at p (some e) = p e

any-absent :
    (p : Entry → Bool) (k : String) (es : List Entry)
    → find k es ≡ none
    → any (λ e. p e && str_eq e.key k) es ≡ false
unfolding find
any-absent p k [] h = refl
any-absent p k (e ∷ es) h = ground (arith, any-absent p k es)

any-find :
    (p : Entry → Bool) (k : String) (es : List Entry)
    → Distinct es
    → any (λ e. p e && str_eq e.key k) es ≡ holds_at p (find k es)
unfolding find
any-find p k [] d = refl
any-find p k (e ∷ es) d = elim (Bool-cases (str_eq e.key k)) [
  | inl t ↦
      let gone = any-absent p k es (rw (← (eq_iff e.key k).0 t) d.0) in rw (t, gone) (ground arith)
  | inr t ↦ rw (t, any-find p k es d.1) (ground arith)
]

pub find-invalidate :
    (k : String) (changed : List String) (c : Cache)
    → IsWellformed c
    → find k (invalidate changed c).entries
      ≡ (if holds_at (λ e. meets e.deps changed) (find k c.entries) then none else find k c.entries)
unfolding invalidate
find-invalidate k changed c w =
    rw (← any-find (λ e. meets e.deps changed) k c.entries w.entries_distinct)
      (find-invalidate_each k changed c.entries c)

absent-All :
    (k : String) (es : List Entry) → find k es ≡ none → All (λ x. str_eq x.key k ≡ false) es
unfolding find
absent-All k [] h = tt
absent-All k (e ∷ es) h = elim (Bool-cases (str_eq e.key k)) [
  | inl t ↦ absurd (ground arith)
  | inr t ↦ (t, absent-All k es (ground arith))
]

-- Each element is the one that its key finds.
abbrev AreFound : Cache → List Entry → Type 0
AreFound c es = All (λ x. find x.key c.lru ≡ some x) es

Distinct-All : (es : List Entry) → Distinct es → All (λ x. find x.key es ≡ some x) es
unfolding find
Distinct-All [] d = tt
Distinct-All (e ∷ es) d = (
  ground (arith, eq_iff e.key e.key),
  All-map (λ x. (str_eq x.key e.key ≡ false) × (find x.key es ≡ some x))
      (λ x. find x.key (e ∷ es) ≡ some x) es
      (λ x h. ground (arith, eq_iff e.key x.key, eq_iff x.key e.key))
      (All-zip (λ x. str_eq x.key e.key ≡ false) (λ x. find x.key es ≡ some x) es
        (absent-All e.key es d.0) (Distinct-All es d.1)),
)

drop_changed-IsWellformed :
    (changed : List String) (e : Entry) (c : Cache)
    → find e.key c.lru ≡ some e
    → IsWellformed c
    → IsWellformed (drop_changed changed e c)
unfolding drop_changed
drop_changed-IsWellformed changed e c h w =
    if_both IsWellformed (meets e.deps changed) _ _
      (counters-IsWellformed (remove e c) _ refl refl refl (remove-IsWellformed e c h w)) w

drop_changed-AreFound :
    (changed : List String) (e : Entry) (c : Cache) (es : List Entry)
    → find e.key es ≡ none
    → AreFound c es
    → AreFound (drop_changed changed e c) es
unfolding drop_changed remove
drop_changed-AreFound changed e c es gone h =
    All-map (λ x. (str_eq x.key e.key ≡ false) × (find x.key c.lru ≡ some x))
      (λ x. find x.key (drop_changed changed e c).lru ≡ some x) es
      (λ x p. ground (arith, find-unlink x.key e.key c.lru, eq_iff e.key x.key, eq_iff x.key e.key))
      (All-zip (λ x. str_eq x.key e.key ≡ false) (λ x. find x.key c.lru ≡ some x) es
        (absent-All e.key es gone) h)

invalidate_each-IsWellformed :
    (changed : List String) (es : List Entry) (c : Cache)
    → Distinct es
    → AreFound c es
    → IsWellformed c
    → IsWellformed (invalidate_each changed es c)
unfolding invalidate_each
invalidate_each-IsWellformed changed [] c d f w = w
invalidate_each-IsWellformed changed (e ∷ es) c d f w =
    invalidate_each-IsWellformed changed es (drop_changed changed e c) d.1
      (drop_changed-AreFound changed e c es d.0 f.1) (drop_changed-IsWellformed changed e c f.0 w)

pub invalidate-IsWellformed :
    (changed : List String) (c : Cache) → IsWellformed c → IsWellformed (invalidate changed c)
unfolding invalidate
invalidate-IsWellformed changed c w =
    invalidate_each-IsWellformed changed c.entries c w.entries_distinct
      (All-map (λ x. find x.key c.entries ≡ some x) (λ x. find x.key c.lru ≡ some x) c.entries
        (λ x h. sym (w.same x.key) ∙ h) (Distinct-All c.entries w.entries_distinct))
      w
