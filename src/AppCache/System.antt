-- ===== src/AppCache/System.antt =====
-- Commits and loads that interleave: `Coordinator.Commit` and the sections of `Get` in
-- appcache/cache.go, each a step of the whole system. The database and a loader's query are
-- parameters, encoding included; a step between two sections is any other section's.
use flashpoint_submission_sy.Prelude.{
  ℕ, ◌+◌, ◌-◌, String, Bool, not, ◌&&◌, ◌||◌, ◌==◌, ltb, leb, Option, none, some, List, map,
  if◌then◌else◌, length, Result, ok,
}
use flashpoint_submission_sy.AppCache.Keyed.{Entry}
use flashpoint_submission_sy.AppCache.Cache.{Cache, increment, invalidate, lookup, expired, publish}

-- `caches` is the registered caches: the one that is watched, and the others.
pub record Coordinator : Type 0 where
  pub generation : ℕ
  pub pending : ℕ
  pub watched : Cache
  pub others : List Cache

-- The first locked section of `Commit`.
unfoldable pub fence : List String → Coordinator → Coordinator
fence changed co = record {
  generation = increment co.generation;
  pending = co.pending + 1;
  watched = invalidate changed co.watched;
  others = map (invalidate changed) co.others;
}

-- The deferred section of `Commit`, which runs whatever the commit returned.
unfoldable pub release : List String → Coordinator → Coordinator
release changed co = record {
  generation = increment co.generation;
  pending = co.pending - 1;
  watched = invalidate changed co.watched;
  others = map (invalidate changed) co.others;
}

-- What a loader gives: the encoded value, what it depends on, and when it expires.
pub record Snapshot : Type 0 where
  pub content : List ℕ
  pub deps : List String
  pub expires : Option ℕ

pub record Loaded : Type 0 where
  pub content : Option (List ℕ)
  pub generation : ℕ
  pub expires : Option ℕ

-- The first section of `Get`: a hit, a wait for pending commits, or a load under a generation.
pub data Look : Type 0 where
  hit : List ℕ → Look
  wait : Look
  start : ℕ → Look

unfoldable pub judge : Coordinator → Option (List ℕ) → Look
judge co (some content) = hit content
judge co none = if ltb 0 co.pending then wait else start co.generation

unfoldable pub count_hit : Look → Cache → Cache
count_hit (hit content) c = record c { stats = record c.stats { hits = increment c.stats.hits } }
count_hit wait c = c
count_hit (start g) c = c

unfoldable pub look : ℕ → String → Coordinator → Look × Coordinator
unfolding judge count_hit
look now key co =
    let (content, c) = lookup now key co.watched in
    let answer = judge co content in (answer, record co { watched = count_hit answer c })

-- The shared loader's second look: what another load put there, or a load of its own.
unfoldable pub second_look : ℕ → Coordinator → Option (List ℕ) × Cache → Option Loaded × Coordinator
second_look generation co (some content, c) = (
  some (record { content = some content; generation = generation; expires = none }),
  record co { watched = c },
)
second_look generation co (none, c) = (
  none,
  record co { watched = record c { stats = record c.stats { loads = increment c.stats.loads } } },
)

-- The first section of the shared loader: an answer without a load, or none where it loads.
unfoldable pub reopen : ℕ → ℕ → String → Coordinator → Option Loaded × Coordinator
unfolding second_look
reopen now generation key co =
    if not (generation == co.generation)
    then (some (record { content = none; generation = generation; expires = none }), co)
    else second_look generation co (lookup now key co.watched)

unfoldable pub entry_of : String → Snapshot → Entry
entry_of key s = record { key = key; content = s.content; deps = s.deps; expires = s.expires }

unfoldable pub may_publish : ℕ → ℕ → Snapshot → Coordinator → Bool
may_publish now generation s co =
    generation == co.generation
    && not (expired now s.expires)
    && leb (length s.content) co.watched.max_bytes

unfoldable pub store_loaded : ℕ → ℕ → String → Snapshot → Coordinator → Option (Result Cache)
unfolding may_publish entry_of
store_loaded now generation key s co =
    if may_publish now generation s co
    then publish (entry_of key s) co.watched
    else some (ok co.watched)

unfoldable pub count_error : Coordinator → Coordinator
count_error co =
    let c = co.watched in
    record co {
      watched = record c { stats = record c.stats { errors = increment c.stats.errors } };
    }

-- `if result.Shared { c.stats.Shared++ }`, for a result that is shared.
unfoldable pub count_shared : Coordinator → Coordinator
count_shared co =
    let c = co.watched in
    record co {
      watched = record c { stats = record c.stats { shared = increment c.stats.shared } };
    }

-- The last section of `Get`: the encoded value, or none where the caller tries again.
unfoldable pub accept : ℕ → Coordinator → Loaded → Option (List ℕ)
accept now co l =
    if not (co.generation == l.generation) || expired now l.expires then none else l.content

-- A load that callers share: about to run its first section, in the loader's query, back from it,
-- or over.
pub data Stage : Type 0 where
  opened : Stage
  reading : Stage
  fetched : Result Snapshot → Stage
  settled : Result Loaded → Stage

pub record Flight : Type 0 where
  pub key : String
  pub generation : ℕ
  pub stage : Stage

unfoldable pub set_flight : ℕ → Flight → (ℕ → Option Flight) → ℕ → Option Flight
set_flight i f flights j = if j == i then some f else flights j
