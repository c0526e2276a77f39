-- ===== src/AppCache/Cache.antt =====
-- The sections of the cache that run under the coordinator's lock (appcache/cache.go). Time is a
-- number, given to each section that reads the clock; the counters are 64-bit words. The time
-- spent loading is not counted.
use Prim.Native.Nat.{◌%◌, ◌^◌}
use package.text.Mathlib.Text.{◌==◌ as str_eq}
use flashpoint_submission_sy.Prelude.{
  ℕ, zero, suc, ◌+◌, ◌-◌, String, Bool, true, false, not, ◌||◌, ltb, Option, none, some, List, [],
  ◌∷◌, any, if◌then◌else◌, length, Result, ok, err, panic,
}
use flashpoint_submission_sy.AppCache.Keyed.{Entry, find, unlink, back}

abbrev pub u64_mod : ℕ
u64_mod = 2 ^ 64

-- `x++` on a uint64
unfoldable pub increment : ℕ → ℕ
increment x = (x + 1) % u64_mod

pub record Stats : Type 0 where
  pub hits : ℕ
  pub loads : ℕ
  pub shared : ℕ
  pub errors : ℕ
  pub invalidations : ℕ
  pub evictions : ℕ
  pub bytes : ℕ

pub record Cache : Type 0 where
  pub entries : List Entry
  pub lru : List Entry
  pub max_entries : ℕ
  pub max_bytes : ℕ
  pub stats : Stats

-- A new cache: a panic on a limit below one.
unfoldable pub new : ℕ → ℕ → Result Cache
new max_entries max_bytes =
    if ltb max_entries 1 || ltb max_bytes 1
    then err panic
    else ok (record {
      entries = [];
      lru = [];
      max_entries = max_entries;
      max_bytes = max_bytes;
      stats = record {
        hits = 0;
        loads = 0;
        shared = 0;
        errors = 0;
        invalidations = 0;
        evictions = 0;
        bytes = 0;
      };
    })

unfoldable pub remove : Entry → Cache → Cache
remove e c = record c {
  entries = unlink e.key c.entries;
  stats = record c.stats { bytes = c.stats.bytes - length e.content };
  lru = unlink e.key c.lru;
}

-- Is one of the dependencies changed?
abbrev pub meets : List String → List String → Bool
meets deps changed = any (λ d. any (λ x. str_eq x d) changed) deps

unfoldable pub drop_changed : List String → Entry → Cache → Cache
unfolding remove
drop_changed changed e c =
    if meets e.deps changed
    then (let c' = remove e c in
        record c' { stats = record c'.stats { invalidations = increment c'.stats.invalidations } })
    else c

-- The loop of `invalidate`, over the entries in some order.
unfoldable pub invalidate_each : List String → List Entry → Cache → Cache
invalidate_each changed [] c = c
invalidate_each changed (e ∷ es) c = invalidate_each changed es (drop_changed changed e c)

unfoldable pub invalidate : List String → Cache → Cache
invalidate changed c = invalidate_each changed c.entries c

-- `!expires.IsZero() && !now.Before(expires)`
unfoldable pub expired : ℕ → Option ℕ → Bool
expired now none = false
expired now (some t) = not (ltb now t)

unfoldable pub lookup : ℕ → String → Cache → Option (List ℕ) × Cache
unfolding remove
lookup now key c = elim (find key c.entries) [
  | none ↦ (none, c)
  | some e ↦
      if expired now e.expires
      then (none, remove e c)
      else (some e.content, record c { lru = e ∷ unlink e.key c.lru })
]

unfoldable pub over : Cache → Bool
over c = ltb c.max_entries (length c.entries) || ltb c.max_bytes c.stats.bytes

unfoldable pub evict_element : Entry → Cache → Cache
unfolding remove
evict_element e c =
    let c' = remove e c in
    record c' { stats = record c'.stats { evictions = increment c'.stats.evictions } }

-- One round of the eviction loop; none where `Back` returns nil, which `remove` dereferences.
unfoldable pub evict_one : Cache → Option Cache
unfolding evict_element
evict_one c = elim (back c.lru) [ none ↦ none | some e ↦ some (evict_element e c) ]

-- The eviction loop on fuel; none where the fuel ran out.
unfoldable pub evict : ℕ → Cache → Option (Result Cache)
evict zero c = none
evict (suc fuel) c = elim (over c) [
  | false ↦ some (ok c)
  | true ↦ elim (evict_one c) [ none ↦ some (err panic) | some c' ↦ evict fuel c' ]
]

-- `if e := c.entries[key]; e != nil { c.remove(e) }`
unfoldable pub remove_old : String → Cache → Cache
remove_old key c = elim (find key c.entries) [ none ↦ c | some old ↦ remove old c ]

-- `c.lru.PushFront(e)`, `c.entries[key] = e` and the count of bytes, after the key's old element
-- is removed.
unfoldable pub replace : Entry → Cache → Cache
unfolding remove_old
replace e c =
    let c' = remove_old e.key c in
    record c' {
      lru = e ∷ c'.lru;
      entries = e ∷ c'.entries;
      stats = record c'.stats { bytes = c'.stats.bytes + length e.content };
    }

-- The publication of a loaded value, with fuel for one round more than there are elements.
unfoldable pub publish : Entry → Cache → Option (Result Cache)
unfolding replace evict
publish e c = let c' = replace e c in evict (suc (length c'.lru)) c'
