-- ===== src/AppCache/Invariant.antt =====
-- The invariant of the system around the cache of appcache/cache.go, and the sections that move one
-- load on.
use native.Mathlib.Nat.{mod-eq_of_lt}
use mathlib.Core.Path.{subst}
use flashpoint_submission_sy.Prelude.{
  ℕ, suc, ◌+◌, ◌≤◌, ◌<◌, String, ◌≡◌, refl, ◌∙◌, inl, inr, false, Bool-cases, some, List, [], ◌∷◌,
  ◌++◌, ◌==◌, length, All, ok, err, arith,
}
use flashpoint_submission_sy.AppCache.Keyed.{Entry, find}
use flashpoint_submission_sy.AppCache.Cache.{Cache, increment, u64_mod, meets}
use flashpoint_submission_sy.AppCache.Wellformed.{IsWellformed}
use flashpoint_submission_sy.AppCache.System.{
  Coordinator, Snapshot, Stage, opened, reading, fetched, settled, Flight, set_flight,
}
use flashpoint_submission_sy.AppCache.Steps.{World}

-- An entry's fields, as a loader gives them.
abbrev pub snapshot_of : Entry → Snapshot
snapshot_of e = record { content = e.content; deps = e.deps; expires = e.expires }

pub meets-nil : (deps : List String) → meets deps [] ≡ false
meets-nil [] = refl
meets-nil (d ∷ ds) = ground (arith, meets-nil ds)

pub All-cut {ℓ κ} :
    {A : Type ℓ} (P : A → Type κ) (x : A) (before after : List A)
    → All P (before ++ (x ∷ after))
    → P x × All P (before ++ after)
All-cut P x [] after h = h
All-cut P x (b ∷ bs) after h = let (p, q) = All-cut P x bs after h.1 in (p, (h.0, q))

pub length-cut {ℓ} :
    {A : Type ℓ} (x : A) (before after : List A)
    → length (before ++ (x ∷ after)) ≡ suc (length (before ++ after))
length-cut x [] after = refl
length-cut x (b ∷ bs) after = omega (arith, length-cut x bs after)

pub increment-lt : (g : ℕ) → g + 1 < u64_mod → increment g ≡ g + 1
unfolding increment
increment-lt g h = mod-eq_of_lt h

-- What a load holds, where the generation has not moved since it started.
abbrev pub StageIs : Snapshot → Stage → Type 0
StageIs s opened = Unit
StageIs s reading = Unit
StageIs s (fetched (ok x)) = x ≡ s
StageIs s (fetched (err e)) = Unit
StageIs s (settled (ok l)) = (content : List ℕ) → l.content ≡ some content → content ≡ s.content
StageIs s (settled (err e)) = Unit

-- A load's answer carries the generation that the load started under.
abbrev pub Labelled : ℕ → Stage → Type 0
Labelled g opened = Unit
Labelled g reading = Unit
Labelled g (fetched r) = Unit
Labelled g (settled (ok l)) = l.generation ≡ g
Labelled g (settled (err e)) = Unit

module _ {Db : Type 0} (load : String → Db → Snapshot) where
  abbrev pub Resident : World Db → String → Entry → Type 0
  Resident w k e =
      (snapshot_of e ≡ load k w.db) × All (λ changed. meets e.deps changed ≡ false) w.running

  abbrev pub FlightIs : World Db → Flight → Type 0
  FlightIs w f =
      (f.generation ≤ w.co.generation)
      × (f.generation ≡ w.co.generation → (w.running ≡ []) × StageIs (load f.key w.db) f.stage)
      × Labelled f.generation f.stage

  -- Every resident entry is what its loader gives now, and no commit that runs changes it; a load
  -- under the present generation holds what its loader gives now.
  pub record IsCoherent (w : World Db) : Type 0 where
    pub watched_wellformed : IsWellformed w.co.watched
    pub numbered : w.co.generation ≡ w.bumps
    pub pending_counted : w.co.pending ≡ length w.running
    pub resident : (k : String) (e : Entry) → find k w.co.watched.entries ≡ some e → Resident w k e
    pub flying : (i : ℕ) (f : Flight) → w.flights i ≡ some f → FlightIs w f

  -- A section of `Get` that leaves the coordinator's counters alone and gives one load a new stage.
  abbrev pub Section : World Db → Coordinator → Type 0
  Section w co =
      (co.generation ≡ w.co.generation)
      × (co.pending ≡ w.co.pending)
      × IsWellformed co.watched
      × ((k : String) (e : Entry) → find k co.watched.entries ≡ some e → Resident w k e)

  FlightIs-moved :
      (w : World Db) (co : Coordinator) (f : Flight)
      → co.generation ≡ w.co.generation
      → FlightIs w f
      → FlightIs (record w { co = co }) f
  FlightIs-moved w co f e h = (omega (arith, e, h.0), λ same. h.1 (same ∙ e), h.2)

  pub moved-IsCoherent :
      (w : World Db) (co : Coordinator) (i : ℕ) (f : Flight)
      → IsCoherent w
      → Section w co
      → FlightIs w f
      → IsCoherent (record w { co = co; flights = set_flight i f w.flights })
  unfolding set_flight
  moved-IsCoherent w co i f h s ok_flight = record {
    watched_wellformed = s.2;
    numbered = s.0 ∙ h.numbered;
    pending_counted = s.1 ∙ h.pending_counted;
    resident = s.3;
    flying = λ j x p. elim (Bool-cases (j == i)) [
      | inl t ↦
          let same : f ≡ x = ground arith in
          FlightIs-moved w co x s.0 (subst (FlightIs w) same ok_flight)
      | inr t ↦ FlightIs-moved w co x s.0 (h.flying j x (ground arith))
    ];
  }

  -- What a section of `Get` needs of the watched cache, where it only removes entries.
  pub removing :
      (w : World Db) (c : Cache)
      → IsCoherent w
      → IsWellformed c
      → ((k : String) (e : Entry)
          → find k c.entries ≡ some e
          → find k w.co.watched.entries ≡ some e)
      → Section w (record w.co { watched = c })
  removing w c h wf subset = (refl, refl, wf, λ k e p. h.resident k e (subset k e p))

  pub steady-IsCoherent :
      (w : World Db) (co : Coordinator)
      → IsCoherent w
      → Section w co
      → IsCoherent (record w { co = co })
  steady-IsCoherent w co h s = record {
    watched_wellformed = s.2;
    numbered = s.0 ∙ h.numbered;
    pending_counted = s.1 ∙ h.pending_counted;
    resident = s.3;
    flying = λ j x p. FlightIs-moved w co x s.0 (h.flying j x p);
  }
