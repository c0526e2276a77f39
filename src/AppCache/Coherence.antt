-- ===== src/AppCache/Coherence.antt =====
-- What readers of appcache/cache.go are given while commits run.
use mathlib.Core.Path.{subst}
use flashpoint_submission_sy.Prelude.{
  ℕ, ◌≤◌, ◌<◌, String, ◌≡◌, refl, sym, ap, ◌∙◌, some, List, [], length, ok, err, arith,
}
use flashpoint_submission_sy.AppCache.Keyed.{Entry, find, total, Distinct}
use flashpoint_submission_sy.AppCache.Cache.{Cache, u64_mod, lookup}
use flashpoint_submission_sy.AppCache.Wellformed.{IsWellformed}
use flashpoint_submission_sy.AppCache.System.{Snapshot, Loaded, accept, fetched, settled, Flight}
use flashpoint_submission_sy.AppCache.Steps.{
  World, Step, begin_commit, write, end_commit, plain_commit, other_caches, call, recheck, query,
  query_fails, finish, finish_error, share, Reach, here, next,
}
use flashpoint_submission_sy.AppCache.Lookups.{lookup-IsLookup}
use flashpoint_submission_sy.AppCache.Invariant.{
  StageIs, Labelled, IsCoherent, steady-IsCoherent, removing,
}
use flashpoint_submission_sy.AppCache.Loads.{
  call-IsCoherent, reopen-IsCoherent, query-IsCoherent, failed-IsCoherent, count_error-IsCoherent,
  count_shared-IsCoherent, finish-IsCoherent,
}
use flashpoint_submission_sy.AppCache.Commits.{
  begin-IsCoherent, end-IsCoherent, write-IsCoherent, plain-IsCoherent,
}
use flashpoint_submission_sy.AppCache.Steps.{initial}
use flashpoint_submission_sy.AppCache.Cache.{new}

new-IsWellformed : (m b : ℕ) (c : Cache) → new m b ≡ ok c → IsWellformed c × (c.entries ≡ [])
unfolding new find total
new-IsWellformed m b c h =
    let entries : c.entries ≡ [] = ground arith in
    let lru : c.lru ≡ [] = ground arith in
    let bytes : c.stats.bytes ≡ 0 = ground arith in
    (
      record {
        entries_distinct = subst Distinct (sym entries) tt;
        lru_distinct = subst Distinct (sym lru) tt;
        same = λ k. ap (find k) (entries ∙ sym lru);
        counted = ap (length {A = Entry}) (entries ∙ sym lru);
        sized = bytes ∙ ap total (sym lru);
      },
      entries,
    )

module _ {Db : Type 0} (load : String → Db → Snapshot) where
  initial-IsCoherent :
      (db : Db) (c : Cache) (others : List Cache)
      → IsWellformed c
      → c.entries ≡ []
      → IsCoherent load (initial db c others)
  unfolding initial find
  initial-IsCoherent db c others h e = record {
    watched_wellformed = h;
    numbered = refl;
    pending_counted = refl;
    resident = λ k x p. absurd (ground (arith, subst (λ es. find k es ≡ some x) e p));
    flying = λ i f p. absurd (ground arith);
  }

  Step-bumps : {w w' : World Db} → Step load w w' → w.bumps ≤ w'.bumps
  Step-bumps (begin_commit w changed n) = omega arith
  Step-bumps (write w before after changed db e r) = omega arith
  Step-bumps (end_commit w before after changed e) = omega arith
  Step-bumps (plain_commit w db r) = omega arith
  Step-bumps (other_caches w others) = omega arith
  Step-bumps (call w i now key) = omega arith
  Step-bumps (recheck w i now f p q) = omega arith
  Step-bumps (query w i f p q) = omega arith
  Step-bumps (query_fails w i f e p q) = omega arith
  Step-bumps (finish w i now f s c p q r) = omega arith
  Step-bumps (finish_error w i f e p q) = omega arith
  Step-bumps (share w) = omega arith

  Step-IsCoherent :
      {w w' : World Db}
      → Step load w w'
      → w'.bumps < u64_mod
      → IsCoherent load w
      → IsCoherent load w'
  Step-IsCoherent (begin_commit w changed n) m h = begin-IsCoherent load w changed m h
  Step-IsCoherent (write w before after changed db e r) m h =
      write-IsCoherent load w before after changed db e r h
  Step-IsCoherent (end_commit w before after changed e) m h =
      end-IsCoherent load w before after changed m e h
  Step-IsCoherent (plain_commit w db r) m h = plain-IsCoherent load w db r h
  Step-IsCoherent (other_caches w others) m h =
      steady-IsCoherent load w (record w.co { others = others }) h
        (removing load w w.co.watched h h.watched_wellformed (λ k e p. p))
  Step-IsCoherent (call w i now key) m h = call-IsCoherent load w i now key h
  Step-IsCoherent (recheck w i now f p q) m h = reopen-IsCoherent load w i now f p h
  Step-IsCoherent (query w i f p q) m h = query-IsCoherent load w i f p h
  Step-IsCoherent (query_fails w i f e p q) m h =
      failed-IsCoherent load w i f (fetched (err e)) p tt tt h
  Step-IsCoherent (finish w i now f s c p q r) m h = finish-IsCoherent load w i now f s c p q r h
  Step-IsCoherent (finish_error w i f e p q) m h =
      count_error-IsCoherent load _ (failed-IsCoherent load w i f (settled (err e)) p tt tt h)
  Step-IsCoherent (share w) m h = count_shared-IsCoherent load w h

  Reach-IsCoherent :
      {first w : World Db}
      → IsCoherent load first
      → Reach load first w
      → w.bumps < u64_mod
      → IsCoherent load w
  Reach-IsCoherent h here m = h
  Reach-IsCoherent h (next r s) m =
      Step-IsCoherent s m (Reach-IsCoherent h r (omega (arith, m, Step-bumps s)))

  -- From a new cache, and before the generation has come round: whatever commits and loads are under
  -- way, a lookup that gives an entry gives what the entry's loader would give at that moment.
  pub lookup_coherent :
      (db : Db) (m b : ℕ) (c : Cache) (others : List Cache) (w : World Db) (now : ℕ) (key : String)
      (content : List ℕ)
      → new m b ≡ ok c
      → Reach load (initial db c others) w
      → w.bumps < u64_mod
      → (lookup now key w.co.watched).0 ≡ some content
      → content ≡ (load key w.db).content
  lookup_coherent db m b c others w now key content made reached small found_content =
      let (wf, empty) = new-IsWellformed m b c made in
      let h = Reach-IsCoherent (initial-IsCoherent db c others wf empty) reached small in
      let (e, at_key, same) = (lookup-IsLookup now key w.co.watched).found content found_content in
      same ∙ ap (λ (s : Snapshot). s.content) (h.resident key e at_key).0

  -- From a new cache, and before the generation has come round: what a load's caller accepts in the
  -- last section of `Get` is what its loader would give at that moment, though commits may have come
  -- between the query and the acceptance.
  pub accept_coherent :
      (db : Db) (m b : ℕ) (c : Cache) (others : List Cache) (w : World Db) (now i : ℕ) (f : Flight)
      (l : Loaded) (content : List ℕ)
      → new m b ≡ ok c
      → Reach load (initial db c others) w
      → w.bumps < u64_mod
      → w.flights i ≡ some f
      → f.stage ≡ settled (ok l)
      → accept now w.co l ≡ some content
      → content ≡ (load f.key w.db).content
  unfolding accept
  accept_coherent db m b c others w now i f l content made reached small at_i at_stage accepted =
      let (wf, empty) = new-IsWellformed m b c made in
      let h = Reach-IsCoherent (initial-IsCoherent db c others wf empty) reached small in
      let (le, present, labelled) = h.flying i f at_i in
      let same : l.generation ≡ f.generation = subst (Labelled f.generation) at_stage labelled in
      let current : w.co.generation ≡ l.generation = ground arith in
      let given : l.content ≡ some content = ground arith in
      subst (StageIs (load f.key w.db)) at_stage (present (sym (current ∙ same))).1 content given
