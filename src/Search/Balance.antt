-- ===== src/Search/Balance.antt =====
-- The placeholders that each block of `SearchSubmissions` (database/searchmonster.go) appends, beside
-- its arguments.
use package.text.Mathlib.Text.{◌==◌ as str_eq}
use flashpoint_submission_sy.Prelude.{
  ◌+◌, String, ◌≡◌, refl, inl, inr, true, Bool-cases, Option, none, some, List, [], ◌∷◌, ◌++◌, map,
  length, any, if_both, arith,
}
use flashpoint_submission_sy.Search.Placeholders.{
  placeholders, placeholders_each, repeat, placeholders-concat, placeholders-repeat,
}
use flashpoint_submission_sy.Search.Blocks.{
  Arg, Piece, nothing, submissions_only, given, some_of, text_block, sequence_block, status_block,
  mark_block,
}

-- As many placeholders as arguments, for submissions and for legacy entries.
abbrev pub IsBalanced : Piece → Type 0
IsBalanced p =
    (placeholders_each p.filters ≡ length p.args)
    × (placeholders_each p.master_filters ≡ length p.master_args)

pub nothing-IsBalanced : IsBalanced nothing
unfolding placeholders_each
nothing-IsBalanced = (refl, refl)

pub given-IsBalanced {ℓ} :
    {A : Type ℓ} (value : Option A) (block : A → Piece)
    → ((a : A) → value ≡ some a → IsBalanced (block a))
    → IsBalanced (given value block)
unfolding given
given-IsBalanced none block h = nothing-IsBalanced
given-IsBalanced (some a) block h = h a refl

pub length-map {ℓ κ} :
    {A : Type ℓ} {B : Type κ} (f : A → B) (xs : List A) → length (map f xs) ≡ length xs
length-map f [] = refl
length-map f (x ∷ xs) = omega (arith, length-map f xs)

pub length-append {ℓ} : {A : Type ℓ} (xs ys : List A) → length (xs ++ ys) ≡ length xs + length ys
length-append [] ys = omega arith
length-append (x ∷ xs) ys = omega (arith, length-append xs ys)

pub some_of-IsBalanced :
    (opening separator closing : String) (args : List Arg)
    → placeholders opening ≡ 1
    → placeholders separator ≡ 1
    → placeholders closing ≡ 0
    → IsBalanced (some_of opening separator closing args)
unfolding some_of submissions_only placeholders_each placeholders
some_of-IsBalanced opening separator closing [] o s c = (refl, refl)
some_of-IsBalanced opening separator closing (a ∷ rest) o s c = (
  grind (
    arith,
    placeholders-concat (opening ∷ repeat separator (length rest) ∷ closing ∷ []),
    placeholders-repeat separator (length rest),
  ),
  refl,
)

pub sequence_block-IsBalanced :
    (column s : String) → placeholders column ≡ 0 → IsBalanced (sequence_block column s)
unfolding sequence_block submissions_only placeholders_each placeholders
sequence_block-IsBalanced column s h =
    (omega (arith, h, placeholders-concat ("(submission_cache." ∷ column ∷ " LIKE ?)" ∷ [])), refl)

pub text_block-IsBalanced :
    (column s : String) → placeholders column ≡ 0 → IsBalanced (text_block column s)
unfolding text_block placeholders_each placeholders
text_block-IsBalanced column s h = (
  omega (arith, h, placeholders-concat ("(meta." ∷ column ∷ " LIKE ?)" ∷ [])),
  omega (arith, h, placeholders-concat ("(" ∷ column ∷ " LIKE ?)" ∷ [])),
)

pub status_block-IsBalanced :
    (unset set column s : String)
    → placeholders column ≡ 0
    → IsBalanced (status_block unset set column s)
unfolding status_block submissions_only placeholders_each placeholders
status_block-IsBalanced unset set column s h =
    let no = placeholders-concat ("(submission_cache." ∷ column ∷ " IS NULL)" ∷ []) in
    let set_one = placeholders-concat ("(submission_cache." ∷ column ∷ " IS NOT NULL)" ∷ []) in
    (
      if_both (λ fs. placeholders_each fs ≡ 0) (str_eq s unset) _ _ (omega (arith, h, no))
          (if_both (λ fs. placeholders_each fs ≡ 0) (str_eq s set) _ _ (omega (arith, h, set_one))
            refl),
      refl,
    )

-- The words of the check are the words of the block.
pub mark_block-IsBalanced :
    (unset set column : String) (user : Arg) (s : String)
    → placeholders column ≡ 0
    → any (λ w. str_eq s w) (unset ∷ set ∷ []) ≡ true
    → IsBalanced (mark_block unset set column user s)
unfolding mark_block submissions_only placeholders_each placeholders
mark_block-IsBalanced unset set column user s h known =
    let no =
      placeholders-concat
        ("(COALESCE(FIND_IN_SET(?, submission_cache." ∷ column ∷ "), 0) = 0)" ∷ []) in
    let set_one =
      placeholders-concat ("(FIND_IN_SET(?, submission_cache." ∷ column ∷ ") > 0)" ∷ []) in
    elim (Bool-cases (str_eq s unset)) [
      | inl t ↦ rw t (omega (arith, h, no), refl)
      | inr t ↦ elim (Bool-cases (str_eq s set)) [
        | inl u ↦ rw (t, u) (omega (arith, h, set_one), refl)
        | inr u ↦ absurd (ground arith)
      ]
    ]
