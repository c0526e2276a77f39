-- ===== src/AppCache/Commits.antt =====
-- The two sections of `Commit` in appcache/cache.go, and what runs between them.
use mathlib.Core.Path.{subst}
use flashpoint_submission_sy.Prelude.{
  ◌+◌, ◌<◌, String, ◌≡◌, sym, ap, ◌∙◌, false, some, List, [], ◌∷◌, ◌++◌, length, All, arith,
}
use flashpoint_submission_sy.AppCache.Keyed.{Entry, find}
use flashpoint_submission_sy.AppCache.Cache.{increment, u64_mod, meets, invalidate}
use flashpoint_submission_sy.AppCache.Invalidate.{invalidate-IsWellformed}
use flashpoint_submission_sy.AppCache.System.{fence, release, Snapshot, Flight}
use flashpoint_submission_sy.AppCache.Steps.{World, Respects}
use flashpoint_submission_sy.AppCache.Lookups.{find-invalidate_inv}
use flashpoint_submission_sy.AppCache.Invariant.{
  meets-nil, All-cut, length-cut, increment-lt, StageIs, Resident, FlightIs, IsCoherent,
}

module _ {Db : Type 0} (load : String → Db → Snapshot) where
  -- What invalidation leaves in the watched cache, while only the commits of `running` go on.
  invalidated-Resident :
      (w : World Db) (changed : List String)
      → IsCoherent load w
      → (k : String) (e : Entry) → find k (invalidate changed w.co.watched).entries ≡ some e
      → Resident load w k e × (meets e.deps changed ≡ false)
  invalidated-Resident w changed h k e p =
      let (at_key, apart) = find-invalidate_inv k changed w.co.watched e h.watched_wellformed p in
      (h.resident k e at_key, apart)

  -- A load of an older generation is only that: its generation is below the present one.
  older-FlightIs :
      (w w' : World Db) (f : Flight)
      → w'.co.generation ≡ w.co.generation + 1
      → FlightIs load w f
      → FlightIs load w' f
  older-FlightIs w w' f moved h =
      (omega (arith, moved, h.0), λ same. absurd (omega (arith, same, moved, h.0)), h.2)

  abbrev begun : World Db → List String → World Db
  begun w changed = record w {
    co = fence changed w.co;
    running = changed ∷ w.running;
    bumps = w.bumps + 1;
  }

  abbrev ended : World Db → List (List String) → List (List String) → List String → World Db
  ended w before after changed = record w {
    co = release changed w.co;
    running = before ++ after;
    bumps = w.bumps + 1;
  }

  pub begin-IsCoherent :
      (w : World Db) (changed : List String)
      → w.bumps + 1 < u64_mod
      → IsCoherent load w
      → IsCoherent load
          (record w { co = fence changed w.co; running = changed ∷ w.running; bumps = w.bumps + 1 })
  unfolding fence
  begin-IsCoherent w changed small h =
      let moved : increment w.co.generation ≡ w.co.generation + 1 =
        increment-lt w.co.generation (omega (arith, small, h.numbered)) in
      record {
        watched_wellformed = invalidate-IsWellformed changed w.co.watched h.watched_wellformed;
        numbered = omega (arith, moved, h.numbered);
        pending_counted = omega (arith, h.pending_counted);
        resident =
            λ k e p. let (r, apart) = invalidated-Resident w changed h k e p in (r.0, (apart, r.1));
        flying = λ i f p. older-FlightIs w (begun w changed) f moved (h.flying i f p);
      }

  pub end-IsCoherent :
      (w : World Db) (before after : List (List String)) (changed : List String)
      → w.bumps + 1 < u64_mod
      → w.running ≡ before ++ (changed ∷ after)
      → IsCoherent load w
      → IsCoherent load
          (record w { co = release changed w.co; running = before ++ after; bumps = w.bumps + 1 })
  unfolding release
  end-IsCoherent w before after changed small is_running h =
      let moved : increment w.co.generation ≡ w.co.generation + 1 =
        increment-lt w.co.generation (omega (arith, small, h.numbered)) in
      record {
        watched_wellformed = invalidate-IsWellformed changed w.co.watched h.watched_wellformed;
        numbered = omega (arith, moved, h.numbered);
        pending_counted = omega (
          arith,
          h.pending_counted,
          ap (length {A = List String}) is_running,
          length-cut changed before after,
        );
        resident = λ k e p.
            let (r, apart) = invalidated-Resident w changed h k e p in
            (
              r.0,
              (All-cut (λ x. meets e.deps x ≡ false) changed before after
                  (subst (All (λ x. meets e.deps x ≡ false)) is_running r.1)).1,
            );
        flying = λ i f p. older-FlightIs w (ended w before after changed) f moved (h.flying i f p);
      }

  -- A change of the database that every resident entry and every present load outlives.
  changed_db-IsCoherent :
      (w : World Db) (db : Db)
      → ((k : String) (e : Entry) → Resident load w k e → load k db ≡ load k w.db)
      → (w.running ≡ [] → (k : String) → load k db ≡ load k w.db)
      → IsCoherent load w
      → IsCoherent load (record w { db = db })
  changed_db-IsCoherent w db kept idle_kept h = record {
    watched_wellformed = h.watched_wellformed;
    numbered = h.numbered;
    pending_counted = h.pending_counted;
    resident = λ k e p. let r = h.resident k e p in (r.0 ∙ sym (kept k e r), r.1);
    flying = λ i f p.
        let flight = h.flying i f p in
        (
          flight.0,
          λ same.
              let (idle, fits) = flight.1 same in
              (idle, subst (λ s. StageIs s f.stage) (sym (idle_kept idle f.key)) fits),
          flight.2,
        );
  }

  pub write-IsCoherent :
      (w : World Db) (before after : List (List String)) (changed : List String) (db : Db)
      → w.running ≡ before ++ (changed ∷ after)
      → Respects load changed w.db db
      → IsCoherent load w
      → IsCoherent load (record w { db = db })
  write-IsCoherent w before after changed db is_running respects =
      changed_db-IsCoherent w db
        (λ k e r. respects k (
          subst (λ (s : Snapshot). meets s.deps changed ≡ false) r.0
            (All-cut (λ x. meets e.deps x ≡ false) changed before after
              (subst (All (λ x. meets e.deps x ≡ false)) is_running r.1)).0))
        (λ idle k. absurd (
          omega (
            arith,
            length-cut changed before after,
            ap (length {A = List String}) is_running,
            ap (length {A = List String}) idle,
          )))

  pub plain-IsCoherent :
      (w : World Db) (db : Db)
      → Respects load [] w.db db
      → IsCoherent load w
      → IsCoherent load (record w { db = db })
  plain-IsCoherent w db respects =
      changed_db-IsCoherent w db (λ k e r. respects k (meets-nil (load k w.db).deps))
        (λ idle k. respects k (meets-nil (load k w.db).deps))
