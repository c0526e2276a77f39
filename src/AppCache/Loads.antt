-- ===== src/AppCache/Loads.antt =====
-- The sections of `Get` in appcache/cache.go as steps of the system.
use package.text.Mathlib.Text.{◌==◌ as str_eq}
use package.text.Mathlib.TextEquality.{eq_iff}
use mathlib.Core.Path.{subst}
use flashpoint_submission_sy.Prelude.{
  ℕ, String, ◌≡◌, refl, sym, ap, ◌∙◌, inl, inr, Bool-cases, Option, none, some, List, [], ◌∷◌, ◌==◌,
  ok, arith,
}
use flashpoint_submission_sy.AppCache.Keyed.{Entry, find, unlink, find-unlink}
use flashpoint_submission_sy.AppCache.Cache.{Cache, increment, lookup}
use flashpoint_submission_sy.AppCache.Wellformed.{
  IsWellformed, lookup-IsWellformed, counters-IsWellformed,
}
use flashpoint_submission_sy.AppCache.Bounds.{publish_bounds}
use flashpoint_submission_sy.AppCache.System.{
  Coordinator, Snapshot, Look, hit, wait, start, judge, count_hit, look, second_look, reopen,
  entry_of, may_publish, store_loaded, count_error, count_shared, Stage, opened, reading, fetched,
  settled, Flight, set_flight,
}
use flashpoint_submission_sy.AppCache.Steps.{World, launch, reopened, loaded_of}
use flashpoint_submission_sy.AppCache.Lookups.{IsLookup, lookup-IsLookup}
use flashpoint_submission_sy.AppCache.Invariant.{
  snapshot_of, StageIs, Labelled, Resident, FlightIs, IsCoherent, Section, moved-IsCoherent,
  steady-IsCoherent, removing,
}

module _ {Db : Type 0} (load : String → Db → Snapshot) where
  -- With no commit between its sections, nothing is pending.
  quiet_of_start :
      (w : World Db) (content : Option (List ℕ)) (g : ℕ)
      → IsCoherent load w
      → judge w.co content ≡ start g
      → (g ≡ w.co.generation) × (w.running ≡ [])
  unfolding judge
  quiet_of_start w content g h e = ground arith

  launch-IsCoherent :
      (w : World Db) (co : Coordinator) (i : ℕ) (key : String) (answer : Look)
      → IsCoherent load w
      → Section load w co
      → ((g : ℕ) → answer ≡ start g → (g ≡ w.co.generation) × (w.running ≡ []))
      → IsCoherent load (record w { co = co; flights = launch i key answer w.flights })
  unfolding launch
  launch-IsCoherent w co i key (hit content) h s quiet = steady-IsCoherent load w co h s
  launch-IsCoherent w co i key wait h s quiet = steady-IsCoherent load w co h s
  launch-IsCoherent w co i key (start g) h s quiet =
      let (now_seen, idle) = quiet g refl in
      moved-IsCoherent load w co i (record { key = key; generation = g; stage = opened }) h s
        (omega (arith, now_seen), λ same. (idle, tt), tt)

  count_hit-Section :
      (w : World Db) (c : Cache) (answer : Look)
      → Section load w (record w.co { watched = c })
      → Section load w (record w.co { watched = count_hit answer c })
  unfolding count_hit
  count_hit-Section w c (hit content) s =
      (s.0, s.1, counters-IsWellformed c _ refl refl refl s.2, s.3)
  count_hit-Section w c wait s = s
  count_hit-Section w c (start g) s = s

  pub call-IsCoherent :
      (w : World Db) (i now : ℕ) (key : String)
      → IsCoherent load w
      → IsCoherent load (record w {
        co = (look now key w.co).1;
        flights = launch i key (look now key w.co).0 w.flights;
      })
  unfolding look
  call-IsCoherent w i now key h =
      let (content, c) = lookup now key w.co.watched in
      launch-IsCoherent w (record w.co { watched = count_hit (judge w.co content) c }) i key
        (judge w.co content) h
        (count_hit-Section w c (judge w.co content) (
          removing load w c h (lookup-IsWellformed now key w.co.watched h.watched_wellformed)
            (lookup-IsLookup now key w.co.watched).subset))
        (λ g e. quiet_of_start w content g h e)

  second_look-IsCoherent :
      (w : World Db) (i : ℕ) (f : Flight) (r : Option (List ℕ) × Cache)
      → w.flights i ≡ some f
      → IsCoherent load w
      → IsLookup f.key w.co.watched r
      → IsWellformed r.1
      → IsCoherent load (record w {
        co = (second_look f.generation w.co r).1;
        flights =
            set_flight i
              (record f { stage = reopened (second_look f.generation w.co r).0 })
              w.flights;
      })
  unfolding second_look reopened
  second_look-IsCoherent w i f (some content, c) at_i h l wf =
      let (e, at_key, same) = l.found content refl in
      let (loads, deps) = h.resident f.key e at_key in
      moved-IsCoherent load w (record w.co { watched = c }) i
        (record f {
          stage =
              settled
                (ok (record { content = some content; generation = f.generation; expires = none }));
        })
        h (removing load w c h wf l.subset)
        ((h.flying i f at_i).0, λ now. (((h.flying i f at_i).1 now).0, λ x p. cc), refl)
  second_look-IsCoherent w i f (none, c) at_i h l wf =
      moved-IsCoherent load w
        (record w.co {
          watched = record c { stats = record c.stats { loads = increment c.stats.loads } };
        })
        i (record f { stage = reading }) h
        (removing load w _ h (counters-IsWellformed c _ refl refl refl wf) l.subset)
        ((h.flying i f at_i).0, λ now. (((h.flying i f at_i).1 now).0, tt), tt)

  pub reopen-IsCoherent :
      (w : World Db) (i now : ℕ) (f : Flight)
      → w.flights i ≡ some f
      → IsCoherent load w
      → IsCoherent load (record w {
        co = (reopen now f.generation f.key w.co).1;
        flights =
            set_flight i
              (record f { stage = reopened (reopen now f.generation f.key w.co).0 })
              w.flights;
      })
  unfolding reopen reopened
  reopen-IsCoherent w i now f at_i h = elim (Bool-cases (f.generation == w.co.generation)) [
    | inr t ↦ rw t (
        moved-IsCoherent load w w.co i
          (record f {
            stage =
                settled (ok (record { content = none; generation = f.generation; expires = none }));
          })
          h (removing load w w.co.watched h h.watched_wellformed (λ k e p. p))
          ((h.flying i f at_i).0, λ same. absurd (ground arith), refl))
    | inl t ↦ rw t (
        second_look-IsCoherent w i f (lookup now f.key w.co.watched) at_i h
          (lookup-IsLookup now f.key w.co.watched)
          (lookup-IsWellformed now f.key w.co.watched h.watched_wellformed))
  ]

  pub query-IsCoherent :
      (w : World Db) (i : ℕ) (f : Flight)
      → w.flights i ≡ some f
      → IsCoherent load w
      → IsCoherent load (record w {
        flights = set_flight i (record f { stage = fetched (ok (load f.key w.db)) }) w.flights;
      })
  query-IsCoherent w i f at_i h =
      moved-IsCoherent load w w.co i (record f { stage = fetched (ok (load f.key w.db)) }) h
        (removing load w w.co.watched h h.watched_wellformed (λ k e p. p))
        ((h.flying i f at_i).0, λ now. (((h.flying i f at_i).1 now).0, refl), tt)

  pub count_shared-IsCoherent :
      (w : World Db) → IsCoherent load w → IsCoherent load (record w { co = count_shared w.co })
  unfolding count_shared
  count_shared-IsCoherent w h = steady-IsCoherent load w (count_shared w.co) h (
      removing load w _ h (counters-IsWellformed w.co.watched _ refl refl refl h.watched_wellformed)
        (λ k e p. p))

  -- A load that fails: in the query, and in the section after it.
  pub failed-IsCoherent :
      (w : World Db) (i : ℕ) (f : Flight) (stage : Stage)
      → w.flights i ≡ some f
      → StageIs (load f.key w.db) stage
      → Labelled f.generation stage
      → IsCoherent load w
      → IsCoherent load (record w { flights = set_flight i (record f { stage = stage }) w.flights })
  failed-IsCoherent w i f stage at_i fits labelled h =
      moved-IsCoherent load w w.co i (record f { stage = stage }) h
        (removing load w w.co.watched h h.watched_wellformed (λ k e p. p))
        ((h.flying i f at_i).0, λ now. (((h.flying i f at_i).1 now).0, fits), labelled)

  pub count_error-IsCoherent :
      (w : World Db) → IsCoherent load w → IsCoherent load (record w { co = count_error w.co })
  unfolding count_error
  count_error-IsCoherent w h = steady-IsCoherent load w (count_error w.co) h (
      removing load w _ h (counters-IsWellformed w.co.watched _ refl refl refl h.watched_wellformed)
        (λ k e p. p))

  published-Resident :
      (w : World Db) (key : String) (s : Snapshot)
      → IsCoherent load w
      → w.running ≡ []
      → s ≡ load key w.db
      → (k : String) (e : Entry)
      → find k (entry_of key s ∷ unlink key w.co.watched.entries) ≡ some e
      → Resident load w k e
  unfolding find entry_of
  published-Resident w key s h idle loads k e p = elim (Bool-cases (str_eq key k)) [
    | inl t ↦
        let same_key : key ≡ k = (eq_iff key k).0 t in
        let same : entry_of key s ≡ e = ground arith in
        (ap snapshot_of (sym same) ∙ (loads ∙ ap (λ x. load x w.db) same_key), rw idle tt)
    | inr t ↦ h.resident k e (ground (arith, find-unlink k key w.co.watched.entries))
  ]

  -- What the last section of a load leaves in the watched cache: what was there, and what it loaded.
  store_loaded-Section :
      (w : World Db) (now : ℕ) (f : Flight) (s : Snapshot) (c : Cache)
      → IsCoherent load w
      → FlightIs load w f
      → f.stage ≡ fetched (ok s)
      → store_loaded now f.generation f.key s w.co ≡ some (ok c)
      → Section load w (record w.co { watched = c })
  unfolding store_loaded may_publish
  store_loaded-Section w now f s c h flight at_stage stored =
      elim (Bool-cases (may_publish now f.generation s w.co)) [
        | inr t ↦
            let same : w.co.watched ≡ c = ground arith in
            subst (λ x. Section load w (record w.co { watched = x })) same
              (removing load w w.co.watched h h.watched_wellformed (λ k e p. p))
        | inl t ↦
            let (c', done, wf, few, small, inside) =
              publish_bounds (entry_of f.key s) w.co.watched h.watched_wellformed in
            let same : c' ≡ c = ground arith in
            let current : f.generation ≡ w.co.generation = ground arith in
            let (idle, fits) = flight.1 current in
            subst (λ x. Section load w (record w.co { watched = x })) same
              (
                refl,
                refl,
                wf,
                λ k e p.
                    published-Resident w f.key s h idle
                      (subst (StageIs (load f.key w.db)) at_stage fits) k e (inside k e p),
              )
      ]

  pub finish-IsCoherent :
      (w : World Db) (i now : ℕ) (f : Flight) (s : Snapshot) (c : Cache)
      → w.flights i ≡ some f
      → f.stage ≡ fetched (ok s)
      → store_loaded now f.generation f.key s w.co ≡ some (ok c)
      → IsCoherent load w
      → IsCoherent load (record w {
        co = record w.co { watched = c };
        flights =
            set_flight i (record f { stage = settled (ok (loaded_of f.generation s)) }) w.flights;
      })
  unfolding loaded_of
  finish-IsCoherent w i now f s c at_i at_stage stored h =
      let flight = h.flying i f at_i in
      moved-IsCoherent load w (record w.co { watched = c }) i
        (record f { stage = settled (ok (loaded_of f.generation s)) }) h
        (store_loaded-Section w now f s c h flight at_stage stored)
        (
          flight.0,
          λ now.
              let fits = subst (StageIs (load f.key w.db)) at_stage (flight.1 now).1 in
              ((flight.1 now).0, λ content e. cc fits),
          refl,
        )
