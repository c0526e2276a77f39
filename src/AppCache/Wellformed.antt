-- ===== src/AppCache/Wellformed.antt =====
-- The map and the recency list hold the same elements, and the bytes are counted
-- (appcache/cache.go, `remove`, `lookup`, `invalidate` and the publication in `Get`).
use package.text.Mathlib.TextEquality.{eq_iff}
use flashpoint_submission_sy.Prelude.{
  ℕ, String, ◌≡◌, sym, ◌∙◌, inl, inr, Bool-cases, Option-cases, none, some, ◌∷◌, length, arith,
}
use flashpoint_submission_sy.AppCache.Keyed.{
  Entry, find, unlink, total, Distinct, find-unlink, find-key, unlink-Distinct, length-unlink,
  total-unlink,
}
use flashpoint_submission_sy.AppCache.Cache.{Cache, remove, expired, lookup, remove_old, replace}

pub record IsWellformed (c : Cache) : Type 0 where
  pub entries_distinct : Distinct c.entries
  pub lru_distinct : Distinct c.lru
  pub same : (k : String) → find k c.entries ≡ find k c.lru
  pub counted : length c.entries ≡ length c.lru
  pub sized : c.stats.bytes ≡ total c.lru

pub remove-IsWellformed :
    (e : Entry) (c : Cache) → find e.key c.lru ≡ some e → IsWellformed c → IsWellformed (remove e c)
unfolding remove
remove-IsWellformed e c h w = record {
  entries_distinct = unlink-Distinct e.key c.entries w.entries_distinct;
  lru_distinct = unlink-Distinct e.key c.lru w.lru_distinct;
  same = λ k. ground (arith, find-unlink k e.key c.entries, find-unlink k e.key c.lru, w.same k);
  counted = ground (
    arith,
    length-unlink e.key c.entries w.entries_distinct (w.same e.key ∙ h),
    length-unlink e.key c.lru w.lru_distinct h,
    w.counted,
  );
  sized = ground (arith, total-unlink e.key c.lru w.lru_distinct h, w.sized);
}

-- Two caches that differ in their counters only, the bytes kept.
pub counters-IsWellformed :
    (c c' : Cache)
    → c'.entries ≡ c.entries
    → c'.lru ≡ c.lru
    → c'.stats.bytes ≡ c.stats.bytes
    → IsWellformed c
    → IsWellformed c'
counters-IsWellformed c c' p q r w = record {
  entries_distinct = rw p w.entries_distinct;
  lru_distinct = rw q w.lru_distinct;
  same = λ k. rw (p, q) (w.same k);
  counted = rw (p, q) w.counted;
  sized = rw (q, r) w.sized;
}

-- The most recent element moves to the front of the list.
touch-IsWellformed :
    (e : Entry) (c : Cache)
    → find e.key c.lru ≡ some e
    → IsWellformed c
    → IsWellformed (record c { lru = e ∷ unlink e.key c.lru })
unfolding find total
touch-IsWellformed e c h w = record {
  entries_distinct = w.entries_distinct;
  lru_distinct = (
    ground (arith, find-unlink e.key e.key c.lru, eq_iff e.key e.key),
    unlink-Distinct e.key c.lru w.lru_distinct,
  );
  same = λ k. ground (arith, w.same k, find-unlink k e.key c.lru, eq_iff e.key k);
  counted = ground (arith, length-unlink e.key c.lru w.lru_distinct h, w.counted);
  sized = ground (arith, total-unlink e.key c.lru w.lru_distinct h, w.sized);
}

pub lookup-IsWellformed :
    (now : ℕ) (key : String) (c : Cache) → IsWellformed c → IsWellformed (lookup now key c).1
unfolding lookup
lookup-IsWellformed now key c w = elim (Option-cases (find key c.entries)) [
  | inl e ↦ rw (e, lookup) w
  | inr (x, e) ↦
      let at_key : find x.key c.lru ≡ some x =
        ground (arith, find-key key c.entries e, w.same key) in
      rw (e, lookup)
        (elim (Bool-cases (expired now x.expires)) [
          | inl t ↦ rw t (remove-IsWellformed x c at_key w)
          | inr t ↦ rw t (touch-IsWellformed x c at_key w)
        ])
]

remove_old-IsWellformed :
    (key : String) (c : Cache) → IsWellformed c → IsWellformed (remove_old key c)
unfolding remove_old
remove_old-IsWellformed key c w = elim (Option-cases (find key c.entries)) [
  | inl e ↦ rw (e, remove_old) w
  | inr (x, e) ↦
      rw (e, remove_old)
        (remove-IsWellformed x c (ground (arith, find-key key c.entries e, w.same key)) w)
]

pub find-remove_old : (key : String) (c : Cache) → find key (remove_old key c).entries ≡ none
unfolding remove_old remove
find-remove_old key c = elim (Option-cases (find key c.entries)) [
  | inl e ↦ rw (e, remove_old) e
  | inr (x, e) ↦
      rw (e, remove_old)
        (ground
          (arith, find-key key c.entries e, find-unlink key x.key c.entries, eq_iff x.key key))
]

pub replace-IsWellformed : (e : Entry) (c : Cache) → IsWellformed c → IsWellformed (replace e c)
unfolding replace find total
replace-IsWellformed e c w =
    let old = remove_old-IsWellformed e.key c w in
    let gone = find-remove_old e.key c in
    record {
      entries_distinct = (gone, old.entries_distinct);
      lru_distinct = (sym (old.same e.key) ∙ gone, old.lru_distinct);
      same = λ k. ground (arith, old.same k);
      counted = ground (arith, old.counted);
      sized = ground (arith, old.sized);
    }
