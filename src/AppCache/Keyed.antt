-- ===== src/AppCache/Keyed.antt =====
-- The elements of the cache's map and of its recency list (appcache/cache.go, `entry`). Both hold
-- one element for a key, so an element is named by its entry's key.
use package.text.Mathlib.Text.{◌==◌ as str_eq}
use package.text.Mathlib.TextEquality.{eq_iff}
use flashpoint_submission_sy.Prelude.{
  ℕ, String, ◌+◌, suc, ◌≡◌, refl, inl, inr, Bool-cases, Option, none, some, List, [], ◌∷◌,
  if◌then◌else◌, length, arith,
}

-- `data` is the encoded value, byte by byte; `expires` is none for the zero time.
pub record Entry : Type 0 where
  pub key : String
  pub content : List ℕ
  pub deps : List String
  pub expires : Option ℕ

-- The element for a key.
unfoldable pub find : String → List Entry → Option Entry
find k [] = none
find k (e ∷ es) = if str_eq e.key k then some e else find k es

-- The list without the key's element.
unfoldable pub unlink : String → List Entry → List Entry
unlink k [] = []
unlink k (e ∷ es) = let rest = unlink k es in if str_eq e.key k then rest else e ∷ rest

-- `lru.Back()`
unfoldable pub back : List Entry → Option Entry
back [] = none
back (e ∷ []) = some e
back (e ∷ e' ∷ es) = back (e' ∷ es)

-- The bytes that the elements hold.
unfoldable pub total : List Entry → ℕ
total [] = 0
total (e ∷ es) = length e.content + total es

-- No key has two elements.
abbrev pub Distinct : List Entry → Type 0
Distinct [] = Unit
Distinct (e ∷ es) = (find e.key es ≡ none) × Distinct es

pub find-unlink :
    (j k : String) (es : List Entry)
    → find j (unlink k es) ≡ (if str_eq k j then none else find j es)
unfolding find unlink
find-unlink j k [] = ground arith
find-unlink j k (e ∷ es) =
    ground (arith, eq_iff e.key k, eq_iff e.key j, eq_iff k j, find-unlink j k es)

pub find-key : (k : String) (es : List Entry) {e : Entry} → find k es ≡ some e → e.key ≡ k
unfolding find
find-key k [] h = ground arith
find-key k (x ∷ es) {e} h = ground (arith, eq_iff x.key k, find-key k es {e = e})

pub unlink-absent : (k : String) (es : List Entry) → find k es ≡ none → unlink k es ≡ es
unfolding find unlink
unlink-absent k [] h = refl
unlink-absent k (x ∷ es) h = ground (arith, unlink-absent k es)

pub unlink-Distinct : (k : String) (es : List Entry) → Distinct es → Distinct (unlink k es)
unfolding unlink
unlink-Distinct k [] d = tt
unlink-Distinct k (x ∷ es) d = elim (Bool-cases (str_eq x.key k)) [
  | inl e ↦ rw e (unlink-Distinct k es d.1)
  | inr e ↦ rw e ((ground (arith, find-unlink x.key k es)), unlink-Distinct k es d.1)
]

pub length-unlink :
    (k : String) (es : List Entry) {e : Entry}
    → Distinct es
    → find k es ≡ some e
    → suc (length (unlink k es)) ≡ length es
unfolding find unlink
length-unlink k [] d h = ground arith
length-unlink k (x ∷ es) {e} d h =
    ground (arith, eq_iff x.key k, unlink-absent k es, length-unlink k es {e = e} d.1)

pub total-unlink :
    (k : String) (es : List Entry) {e : Entry}
    → Distinct es
    → find k es ≡ some e
    → total (unlink k es) + length e.content ≡ total es
unfolding find unlink total
total-unlink k [] d h = ground arith
total-unlink k (x ∷ es) {e} d h =
    ground (arith, eq_iff x.key k, unlink-absent k es, total-unlink k es {e = e} d.1)

pub find-back :
    (es : List Entry) {e : Entry} → Distinct es → back es ≡ some e → find e.key es ≡ some e
unfolding find back
find-back [] d h = ground arith
find-back (x ∷ []) {e} d h = ground (arith, eq_iff x.key x.key, eq_iff x.key e.key)
find-back (x ∷ y ∷ es) {e} d h = ground (arith, eq_iff x.key e.key, find-back (y ∷ es) d.1 h)

pub back-none : (es : List Entry) → back es ≡ none → es ≡ []
unfolding back
back-none [] h = refl
back-none (x ∷ []) h = ground arith
back-none (x ∷ y ∷ es) h = ground (arith, back-none (y ∷ es) h)
