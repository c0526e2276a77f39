-- ===== src/AppCache/Lookups.antt =====
-- What a lookup and an invalidation of appcache/cache.go leave for a key to find.
use flashpoint_submission_sy.Prelude.{
  ℕ, String, ◌≡◌, inl, inr, false, Bool-cases, Option, Option-cases, some, List, arith,
}
use flashpoint_submission_sy.AppCache.Keyed.{Entry, find, find-unlink}
use flashpoint_submission_sy.AppCache.Cache.{Cache, meets, invalidate, lookup, expired, remove}
use flashpoint_submission_sy.AppCache.Wellformed.{IsWellformed}
use flashpoint_submission_sy.AppCache.Invalidate.{find-invalidate}

-- An entry that invalidation leaves was there, and depends on no change.
pub find-invalidate_inv :
    (k : String) (changed : List String) (c : Cache) (e : Entry)
    → IsWellformed c
    → find k (invalidate changed c).entries ≡ some e
    → (find k c.entries ≡ some e) × (meets e.deps changed ≡ false)
find-invalidate_inv k changed c e w h = elim (Option-cases (find k c.entries)) [
  | inl p ↦ let q = find-invalidate k changed c w in ground arith
  | inr (x, p) ↦ let q = find-invalidate k changed c w in ground arith
]

-- What a lookup gives is an entry's, and it only removes.
pub record IsLookup (key : String) (c : Cache) (r : Option (List ℕ) × Cache) : Type 0 where
  pub subset : (k : String) (e : Entry) → find k r.1.entries ≡ some e → find k c.entries ≡ some e
  pub found :
      (content : List ℕ)
      → r.0 ≡ some content
      → (e : Entry) × (find key c.entries ≡ some e) × (content ≡ e.content)

pub lookup-IsLookup : (now : ℕ) (key : String) (c : Cache) → IsLookup key c (lookup now key c)
unfolding lookup remove
lookup-IsLookup now key c = elim (Option-cases (find key c.entries)) [
  | inl p ↦ rw (p, lookup) (record { subset = λ k e h. h; found = λ b h. absurd (ground arith) })
  | inr (x, p) ↦
      rw (p, lookup)
        (elim (Bool-cases (expired now x.expires)) [
          | inl t ↦ rw t (record {
            subset = λ k e h. ground (arith, find-unlink k x.key c.entries);
            found = λ b h. absurd (ground arith);
          })
          | inr t ↦ rw t (record { subset = λ k e h. h; found = λ b h. (x, p, ground arith) })
        ])
]
