-- ===== src/AppCache/Steps.antt =====
-- The steps of the whole system around the cache of appcache/cache.go: transactions that run inside
-- `Commit`, and callers of `Get`. A query of a loader reads one state of the database. `bumps`
-- counts the increments of the generation, which the source does not.
use flashpoint_submission_sy.Prelude.{
  ℕ, ◌+◌, String, ◌≡◌, ◌≢◌, false, Option, none, some, List, [], ◌∷◌, ◌++◌, ok, err, Error,
}
use flashpoint_submission_sy.AppCache.Cache.{Cache, meets}
use flashpoint_submission_sy.AppCache.System.{
  Coordinator, fence, release, Snapshot, Loaded, Look, hit, wait, start, look, reopen, store_loaded,
  count_error, count_shared, Stage, opened, reading, fetched, settled, Flight, set_flight,
}

-- `running` is the change sets of the commits between their two sections.
pub record World (Db : Type 0) : Type 0 where
  pub db : Db
  pub co : Coordinator
  pub running : List (List String)
  pub flights : ℕ → Option Flight
  pub bumps : ℕ

-- A caller that starts a load remembers the generation that it saw.
unfoldable pub launch : ℕ → String → Look → (ℕ → Option Flight) → ℕ → Option Flight
launch i key (hit content) flights = flights
launch i key wait flights = flights
launch i key (start g) flights =
    set_flight i (record { key = key; generation = g; stage = opened }) flights

unfoldable pub reopened : Option Loaded → Stage
reopened none = reading
reopened (some l) = settled (ok l)

unfoldable pub loaded_of : ℕ → Snapshot → Loaded
loaded_of generation s = record {
  content = some s.content;
  generation = generation;
  expires = s.expires;
}

-- Before any commit and any call.
unfoldable pub initial : {Db : Type 0} → Db → Cache → List Cache → World Db
initial db watched others = record {
  db = db;
  co = record { generation = 0; pending = 0; watched = watched; others = others };
  running = [];
  flights = λ i. none;
  bumps = 0;
}

module _ {Db : Type 0} (load : String → Db → Snapshot) where
  -- A transaction that reports its changes: whatever does not depend on one of them loads as before.
  abbrev pub Respects : List String → Db → Db → Type 0
  Respects changed db db' =
      (k : String) → meets (load k db).deps changed ≡ false → load k db' ≡ load k db

  pub data Step : World Db → World Db → Type 0 where
    begin_commit :
        (w : World Db) (changed : List String)
        → changed ≢ []
        → Step w (record w {
          co = fence changed w.co;
          running = changed ∷ w.running;
          bumps = w.bumps + 1;
        })
    write :
        (w : World Db) (before after : List (List String)) (changed : List String) (db : Db)
        → w.running ≡ before ++ (changed ∷ after)
        → Respects changed w.db db
        → Step w (record w { db = db })
    end_commit :
        (w : World Db) (before after : List (List String)) (changed : List String)
        → w.running ≡ before ++ (changed ∷ after)
        → Step w
            (record w { co = release changed w.co; running = before ++ after; bumps = w.bumps + 1 })
    -- `Commit` with no changes to report
    plain_commit : (w : World Db) (db : Db) → Respects [] w.db db → Step w (record w { db = db })
    other_caches :
        (w : World Db) (others : List Cache)
        → Step w (record w { co = record w.co { others = others } })
    call :
        (w : World Db) (i now : ℕ) (key : String)
        → Step w (record w {
          co = (look now key w.co).1;
          flights = launch i key (look now key w.co).0 w.flights;
        })
    recheck :
        (w : World Db) (i now : ℕ) (f : Flight)
        → w.flights i ≡ some f
        → f.stage ≡ opened
        → Step w (record w {
          co = (reopen now f.generation f.key w.co).1;
          flights =
              set_flight i
                (record f { stage = reopened (reopen now f.generation f.key w.co).0 })
                w.flights;
        })
    query :
        (w : World Db) (i : ℕ) (f : Flight)
        → w.flights i ≡ some f
        → f.stage ≡ reading
        → Step w (record w {
          flights = set_flight i (record f { stage = fetched (ok (load f.key w.db)) }) w.flights;
        })
    query_fails :
        (w : World Db) (i : ℕ) (f : Flight) (e : Error)
        → w.flights i ≡ some f
        → f.stage ≡ reading
        → Step w
            (record w { flights = set_flight i (record f { stage = fetched (err e) }) w.flights })
    finish :
        (w : World Db) (i now : ℕ) (f : Flight) (s : Snapshot) (c : Cache)
        → w.flights i ≡ some f
        → f.stage ≡ fetched (ok s)
        → store_loaded now f.generation f.key s w.co ≡ some (ok c)
        → Step w (record w {
          co = record w.co { watched = c };
          flights =
              set_flight i (record f { stage = settled (ok (loaded_of f.generation s)) }) w.flights;
        })
    finish_error :
        (w : World Db) (i : ℕ) (f : Flight) (e : Error)
        → w.flights i ≡ some f
        → f.stage ≡ fetched (err e)
        → Step w (record w {
          co = count_error w.co;
          flights = set_flight i (record f { stage = settled (err e) }) w.flights;
        })
    share : (w : World Db) → Step w (record w { co = count_shared w.co })

  pub data Reach (first : World Db) : World Db → Type 0 where
    here : Reach first first
    next : {w w' : World Db} → Reach first w → Step w w' → Reach first w'
