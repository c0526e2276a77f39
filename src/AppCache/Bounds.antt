-- ===== src/AppCache/Bounds.antt =====
-- The eviction loop of the publication in `Get` (appcache/cache.go) and the limits of a cache.
use flashpoint_submission_sy.Prelude.{
  ℕ, zero, suc, ◌≤◌, ◌<◌, String, ◌≡◌, refl, sym, ap, inl, inr, true, false, Bool-cases,
  Option-cases, some, [], ◌∷◌, ◌≢◌, length, ok, arith,
}
use flashpoint_submission_sy.AppCache.Keyed.{
  Entry, find, unlink, back, total, find-unlink, find-back, back-none, length-unlink, find-key,
  unlink-absent,
}
use flashpoint_submission_sy.AppCache.Cache.{
  Cache, remove, over, evict_one, evict, replace, publish, remove_old, evict_element,
}
use flashpoint_submission_sy.AppCache.Wellformed.{
  IsWellformed, remove-IsWellformed, counters-IsWellformed, replace-IsWellformed,
}

-- One round of the loop.
record IsRound (c c' : Cache) : Type 0 where
  round_wellformed : IsWellformed c'
  shorter : suc (length c'.lru) ≡ length c.lru
  same_entries : c'.max_entries ≡ c.max_entries
  same_bytes : c'.max_bytes ≡ c.max_bytes
  kept : (k : String) (e : Entry) → find k c'.entries ≡ some e → find k c.entries ≡ some e

nonempty_of_over : (c : Cache) → IsWellformed c → over c ≡ true → c.lru ≢ []
unfolding over total
nonempty_of_over c w h empty =
    ground (arith, w.counted, w.sized, ap total empty, ap (length {A = Entry}) empty)

back_of_over : (c : Cache) → IsWellformed c → over c ≡ true → (e : Entry) × (back c.lru ≡ some e)
back_of_over c w h = elim (Option-cases (back c.lru)) [
  | inl e ↦ absurd (nonempty_of_over c w h (back-none c.lru e))
  | inr found ↦ found
]

evict_one-IsRound :
    (c : Cache)
    → IsWellformed c
    → over c ≡ true
    → (c' : Cache) × (evict_one c ≡ some c') × IsRound c c'
unfolding evict_one evict_element remove
evict_one-IsRound c w h =
    let (e, last) = back_of_over c w h in
    let at_key = find-back c.lru w.lru_distinct last in
    let w' = remove-IsWellformed e c at_key w in
    (
      evict_element e c,
      rw (last, evict_one) refl,
      record {
        round_wellformed = counters-IsWellformed (remove e c) (evict_element e c) refl refl refl w';
        shorter = length-unlink e.key c.lru w.lru_distinct at_key;
        same_entries = refl;
        same_bytes = refl;
        kept = λ k x p. ground (arith, find-unlink k e.key c.entries);
      },
    )

-- What the loop leaves.
pub record IsEvicted (c c' : Cache) : Type 0 where
  pub wellformed : IsWellformed c'
  pub entries_within : length c'.entries ≤ c.max_entries
  pub bytes_within : total c'.lru ≤ c.max_bytes
  pub subset : (k : String) (e : Entry) → find k c'.entries ≡ some e → find k c.entries ≡ some e

over-IsEvicted : (c : Cache) → IsWellformed c → over c ≡ false → IsEvicted c c
unfolding over
over-IsEvicted c w t = record {
  wellformed = w;
  entries_within = ground arith;
  bytes_within = ground (arith, w.sized);
  subset = λ k e p. p;
}

-- With more fuel than there are elements, the eviction loop ends without a panic, and what is left
-- is well-formed, within both limits, and was there before.
pub evict-IsEvicted :
    (fuel : ℕ) (c : Cache)
    → IsWellformed c
    → length c.lru < fuel
    → (c' : Cache) × (evict fuel c ≡ some (ok c')) × IsEvicted c c'
unfolding evict
evict-IsEvicted zero c w h = absurd (omega arith)
evict-IsEvicted (suc fuel) c w h = elim (Bool-cases (over c)) [
  | inl t ↦
      let (c1, one, r) = evict_one-IsRound c w t in
      let (c', rest, done) =
        evict-IsEvicted fuel c1 r.round_wellformed (omega (arith, r.shorter)) in
      (
        c',
        rw (t, evict, one) rest,
        record {
          wellformed = done.wellformed;
          entries_within = omega (arith, done.entries_within, r.same_entries);
          bytes_within = omega (arith, done.bytes_within, r.same_bytes);
          subset = λ k e p. r.kept k e (done.subset k e p);
        },
      )
  | inr t ↦ (c, rw (t, evict) refl, over-IsEvicted c w t)
]

same_limits :
    (e : Entry) (c : Cache)
    → ((replace e c).max_entries ≡ c.max_entries) × ((replace e c).max_bytes ≡ c.max_bytes)
unfolding replace remove_old remove
same_limits e c = ground arith

remove_old-entries : (key : String) (c : Cache) → (remove_old key c).entries ≡ unlink key c.entries
unfolding remove_old remove
remove_old-entries key c = elim (Option-cases (find key c.entries)) [
  | inl e ↦ rw (e, remove_old) (sym (unlink-absent key c.entries e))
  | inr (x, e) ↦ rw (e, remove_old) (ap (λ k. unlink k c.entries) (find-key key c.entries e))
]

find-replace :
    (e : Entry) (c : Cache) (k : String) (x : Entry)
    → find k (replace e c).entries ≡ some x
    → find k (e ∷ unlink e.key c.entries) ≡ some x
unfolding replace
find-replace e c k x h = rw (← remove_old-entries e.key c) h

-- Publishing an entry in a well-formed cache ends without a panic, and leaves a well-formed cache
-- with no more entries and no more bytes than its limits, whose entries are the published one and
-- entries that were there before under other keys.
pub publish_bounds :
    (e : Entry) (c : Cache)
    → IsWellformed c
    → (c' : Cache) × (publish e c ≡ some (ok c'))
      × IsWellformed c'
      × (length c'.entries ≤ c.max_entries)
      × (c'.stats.bytes ≤ c.max_bytes)
      × ((k : String) (x : Entry)
          → find k c'.entries ≡ some x
          → find k (e ∷ (unlink e.key c.entries)) ≡ some x)
unfolding publish
publish_bounds e c w =
    let (c', done, r) =
      evict-IsEvicted (suc (length (replace e c).lru)) (replace e c) (replace-IsWellformed e c w)
        (omega arith) in
    (
      c',
      done,
      r.wellformed,
      ground (arith, r.entries_within, same_limits e c),
      ground (arith, r.bytes_within, r.wellformed.sized, same_limits e c),
      λ k x p. find-replace e c k x (r.subset k x p),
    )
