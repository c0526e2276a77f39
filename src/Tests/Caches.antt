-- ===== src/Tests/Caches.antt =====
-- Runs of the application cache (appcache/cache.go) on small data, and the theorems at them.
use package.text.Mathlib.TextEquality.{eq_iff}
use flashpoint_submission_sy.Prelude.{
  ℕ, ◌≤◌, String, ◌≡◌, refl, none, some, List, [], ◌∷◌, length, ok, arith,
}
use flashpoint_submission_sy.AppCache.Keyed.{Entry, find, unlink, total}
use flashpoint_submission_sy.AppCache.Cache.{
  Cache, Stats, new, increment, remove_old, replace, publish, evict, over, expired, lookup,
}
use flashpoint_submission_sy.AppCache.Wellformed.{IsWellformed}
use flashpoint_submission_sy.AppCache.Bounds.{IsEvicted, evict-IsEvicted, publish_bounds}
use flashpoint_submission_sy.AppCache.System.{
  Snapshot, look, judge, count_hit, reopen, second_look, store_loaded, may_publish, entry_of,
  accept, Flight, opened, reading, fetched, settled, set_flight,
}
use flashpoint_submission_sy.AppCache.Steps.{
  World, initial, launch, reopened, loaded_of, Reach, here, next, call, recheck, query, finish,
}
use flashpoint_submission_sy.AppCache.Coherence.{lookup_coherent, accept_coherent}

abbrev row : String → List ℕ → Entry
row key content = record { key = key; content = content; deps = "user:1" ∷ []; expires = none }

abbrev zeros : Stats
zeros = record {
  hits = 0;
  loads = 0;
  shared = 0;
  errors = 0;
  invalidations = 0;
  evictions = 0;
  bytes = 0;
}

-- Two entries of three bytes, where two bytes are allowed.
abbrev crowded : Cache
crowded = record {
  entries = row "a" (1 ∷ []) ∷ row "b" (2 ∷ 3 ∷ []) ∷ [];
  lru = row "b" (2 ∷ 3 ∷ []) ∷ row "a" (1 ∷ []) ∷ [];
  max_entries = 5;
  max_bytes = 2;
  stats = record zeros { bytes = 3 };
}

same_crowded : (k : String) → find k crowded.entries ≡ find k crowded.lru
unfolding find
same_crowded k = ground (arith, eq_iff "a" k, eq_iff "b" k, eq_iff "a" "b")

crowded-IsWellformed : IsWellformed crowded
unfolding find total
crowded-IsWellformed = record {
  entries_distinct = (refl, (refl, tt));
  lru_distinct = (refl, (refl, tt));
  same = same_crowded;
  counted = refl;
  sized = refl;
}

evict-IsEvicted_example : (c' : Cache) × (evict 3 crowded ≡ some (ok c')) × IsEvicted crowded c'
evict-IsEvicted_example = evict-IsEvicted 3 crowded crowded-IsWellformed (omega arith)

publish_bounds_example :
    (c' : Cache) × (publish (row "c" (4 ∷ [])) crowded ≡ some (ok c'))
    × IsWellformed c'
    × (length c'.entries ≤ 5)
    × (c'.stats.bytes ≤ 2)
    × ((k : String) (x : Entry)
        → find k c'.entries ≡ some x
        → find k (row "c" (4 ∷ []) ∷ (unlink "c" crowded.entries)) ≡ some x)
publish_bounds_example = publish_bounds (row "c" (4 ∷ [])) crowded crowded-IsWellformed

-- The database is a number, every key's value.
abbrev number_load : String → ℕ → Snapshot
number_load key db = record { content = db ∷ []; deps = key ∷ []; expires = none }

abbrev empty_cache : Cache
empty_cache = record { entries = []; lru = []; max_entries = 2; max_bytes = 9; stats = zeros }

abbrev full_cache : Cache
full_cache = record {
  entries = record { key = "user:1"; content = 5 ∷ []; deps = "user:1" ∷ []; expires = none } ∷ [];
  lru = record { key = "user:1"; content = 5 ∷ []; deps = "user:1" ∷ []; expires = none } ∷ [];
  max_entries = 2;
  max_bytes = 9;
  stats = record zeros { loads = 1; bytes = 1 };
}

abbrev flight : Flight
flight = record { key = "user:1"; generation = 0; stage = opened }

abbrev settled_world : World ℕ
settled_world = record {
  db = 5;
  co = record { generation = 0; pending = 0; watched = full_cache; others = [] };
  running = [];
  flights =
      set_flight 0 (record flight { stage = settled (ok (loaded_of 0 (number_load "user:1" 5))) })
        (set_flight 0 (record flight { stage = fetched (ok (number_load "user:1" 5)) })
          (set_flight 0 (record flight { stage = reading }) (set_flight 0 flight (λ i. none))));
  bumps = 0;
}

settled-Reach : Reach number_load (initial 5 empty_cache []) settled_world
unfolding initial look lookup find judge launch set_flight count_hit reopen second_look reopened
    store_loaded may_publish publish replace evict over remove_old increment expired entry_of
    loaded_of
settled-Reach =
    next
      (next
        (next (next here (call (initial 5 empty_cache []) 0 0 "user:1"))
          (recheck _ 0 0 flight refl refl))
        (query _ 0 (record flight { stage = reading }) refl refl))
      (finish _ 0 0 (record flight { stage = fetched (ok (number_load "user:1" 5)) })
        (number_load "user:1" 5) full_cache refl refl refl)

new_empty : new 2 9 ≡ ok empty_cache
unfolding new
new_empty = refl

lookup_coherent_example : ◌≡◌ {A = List ℕ} (5 ∷ []) (number_load "user:1" 5).content
unfolding lookup find expired
lookup_coherent_example =
    lookup_coherent number_load 5 2 9 empty_cache [] settled_world 0 "user:1" (5 ∷ []) new_empty
      settled-Reach (omega arith) refl

accept_coherent_example : ◌≡◌ {A = List ℕ} (5 ∷ []) (number_load "user:1" 5).content
unfolding accept loaded_of set_flight expired
accept_coherent_example =
    accept_coherent number_load 5 2 9 empty_cache [] settled_world 0 0
      (record flight { stage = settled (ok (loaded_of 0 (number_load "user:1" 5))) })
      (loaded_of 0 (number_load "user:1" 5)) (5 ∷ []) new_empty settled-Reach (omega arith) refl
      refl refl
