-- ===== src/Search/Placeholders.antt =====
-- The placeholders of an SQL text, and the standard library's joins of texts that
-- database/searchmonster.go builds it with.
use Prim.Native.Char.{Char, code}
use Prim.Native.String.append
use Prim.Native.String.{◌++◌ as str_append}
use flashpoint_submission_sy.Prelude.{
  ℕ, zero, suc, ◌+◌, ◌*◌, String, ◌≡◌, refl, ap, List, [], ◌∷◌, ◌++◌, if◌then◌else◌, ◌==◌, arith,
}

-- How many `?` a text holds.
unfoldable pub placeholders : String → ℕ
placeholders String.[] = 0
placeholders (String.◌∷◌ c s) = (if code c == b'?' then 1 else 0) + placeholders s

append_nil : (t : String) → str_append "" t ≡ t
append_nil t = λ i. append.nil t i

append_cons :
    (c : Char) (s t : String) → str_append (String.◌∷◌ c s) t ≡ String.◌∷◌ c (str_append s t)
append_cons c s t = λ i. append.cons c s t i

pub placeholders-append :
    (s t : String) → placeholders (str_append s t) ≡ placeholders s + placeholders t
unfolding placeholders
placeholders-append String.[] t = let e = ap placeholders (append_nil t) in omega (arith, e)
placeholders-append (String.◌∷◌ c s) t =
    let e = ap placeholders (append_cons c s t) in omega (arith, e, placeholders-append s t)

-- The texts one after another.
abbrev pub concat : List String → String
concat [] = ""
concat (s ∷ ss) = str_append s (concat ss)

unfoldable pub placeholders_each : List String → ℕ
placeholders_each [] = 0
placeholders_each (s ∷ ss) = placeholders s + placeholders_each ss

pub placeholders-concat : (ss : List String) → placeholders (concat ss) ≡ placeholders_each ss
unfolding placeholders_each placeholders
placeholders-concat [] = refl
placeholders-concat (s ∷ ss) =
    omega (arith, placeholders-append s (concat ss), placeholders-concat ss)

-- `strings.Repeat`
unfoldable pub repeat : String → ℕ → String
repeat s zero = ""
repeat s (suc n) = str_append s (repeat s n)

-- `strings.Join`
unfoldable pub join : List String → String → String
join [] sep = ""
join (s ∷ []) sep = s
join (s ∷ t ∷ ss) sep = str_append s (str_append sep (join (t ∷ ss) sep))

pub placeholders_each-append :
    (ss ts : List String)
    → placeholders_each (ss ++ ts) ≡ placeholders_each ss + placeholders_each ts
unfolding placeholders_each
placeholders_each-append [] ts = omega arith
placeholders_each-append (s ∷ ss) ts = omega (arith, placeholders_each-append ss ts)

pub placeholders-repeat : (s : String) (n : ℕ) → placeholders (repeat s n) ≡ n * placeholders s
unfolding repeat placeholders
placeholders-repeat s zero = grind arith
placeholders-repeat s (suc n) =
    grind (arith, placeholders-append s (repeat s n), placeholders-repeat s n)

pub placeholders-join :
    (ss : List String) (sep : String)
    → placeholders sep ≡ 0
    → placeholders (join ss sep) ≡ placeholders_each ss
unfolding join placeholders_each placeholders
placeholders-join [] sep h = refl
placeholders-join (s ∷ []) sep h = omega arith
placeholders-join (s ∷ t ∷ ss) sep h = omega (
  arith,
  placeholders-append s (str_append sep (join (t ∷ ss) sep)),
  placeholders-append sep (join (t ∷ ss) sep),
  placeholders-join (t ∷ ss) sep h,
)
