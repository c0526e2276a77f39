-- ===== src/Database/Locks/Order.antt =====
-- The order in which a batch takes its locks.
use flashpoint_submission_sy.Prelude.{ℕ, ◌<◌, ◌≤◌, ◌≡◌, refl, ◌||◌, List, [], ◌∷◌, ◌==◌, arith}
use flashpoint_submission_sy.Review.Submission.{uid_in}
use flashpoint_submission_sy.Review.Cache.Replay.{uid_in-cons}
use flashpoint_submission_sy.Database.Locks.{insert_sorted, sort, push_new, compact, lock_order}

-- Each id is smaller than the one behind it.
abbrev pub IsAscending : List ℕ → Type 0
IsAscending [] = Unit
IsAscending (x ∷ []) = Unit
IsAscending (x ∷ y ∷ ys) = (x < y) × IsAscending (y ∷ ys)

abbrev IsSorted : List ℕ → Type 0
IsSorted [] = Unit
IsSorted (x ∷ []) = Unit
IsSorted (x ∷ y ∷ ys) = (x ≤ y) × IsSorted (y ∷ ys)

insert_sorted-IsSorted : (x : ℕ) (ys : List ℕ) → IsSorted ys → IsSorted (insert_sorted x ys)
unfolding insert_sorted
insert_sorted-IsSorted x [] h = tt
insert_sorted-IsSorted x (y ∷ []) h = ground arith
insert_sorted-IsSorted x (y ∷ z ∷ zs) h = ground (arith, insert_sorted-IsSorted x (z ∷ zs) h.1)

sort-IsSorted : (xs : List ℕ) → IsSorted (sort xs)
unfolding sort
sort-IsSorted [] = tt
sort-IsSorted (x ∷ xs) = insert_sorted-IsSorted x (sort xs) (sort-IsSorted xs)

-- The number is at most the head of the list, if there is one.
abbrev AtMost : ℕ → List ℕ → Type 0
AtMost x [] = Unit
AtMost x (y ∷ ys) = x ≤ y

push_new-AtMost : (x y : ℕ) (ys : List ℕ) → x ≤ y → AtMost x (push_new y ys)
push_new-AtMost x y [] h = h
push_new-AtMost x y (z ∷ zs) h = ground arith

compact-AtMost : (x y : ℕ) (ys : List ℕ) → x ≤ y → AtMost x (compact (y ∷ ys))
unfolding compact
compact-AtMost x y ys h = push_new-AtMost x y (compact ys) h

push_new-IsAscending :
    (x : ℕ) (ys : List ℕ) → IsAscending ys → AtMost x ys → IsAscending (push_new x ys)
push_new-IsAscending x [] h le = tt
push_new-IsAscending x (y ∷ ys) h le = ground arith

compact-IsAscending : (xs : List ℕ) → IsSorted xs → IsAscending (compact xs)
unfolding compact
compact-IsAscending [] h = tt
compact-IsAscending (x ∷ []) h = tt
compact-IsAscending (x ∷ y ∷ ys) h =
    push_new-IsAscending x (compact (y ∷ ys)) (compact-IsAscending (y ∷ ys) h.1)
      (compact-AtMost x y ys h.0)

uid_in-insert_sorted :
    (a x : ℕ) (ys : List ℕ) → uid_in a (insert_sorted x ys) ≡ (a == x || uid_in a ys)
unfolding insert_sorted
uid_in-insert_sorted a x [] = uid_in-cons a x []
uid_in-insert_sorted a x (y ∷ ys) = ground (
  arith,
  uid_in-insert_sorted a x ys,
  uid_in-cons a x (y ∷ ys),
  uid_in-cons a y ys,
  uid_in-cons a y (insert_sorted x ys),
)

uid_in-sort : (a : ℕ) (xs : List ℕ) → uid_in a (sort xs) ≡ uid_in a xs
unfolding sort
uid_in-sort a [] = refl
uid_in-sort a (x ∷ xs) =
    ground (arith, uid_in-insert_sorted a x (sort xs), uid_in-sort a xs, uid_in-cons a x xs)

uid_in-push_new : (a x : ℕ) (ys : List ℕ) → uid_in a (push_new x ys) ≡ (a == x || uid_in a ys)
uid_in-push_new a x [] = uid_in-cons a x []
uid_in-push_new a x (y ∷ ys) = ground (arith, uid_in-cons a x (y ∷ ys), uid_in-cons a y ys)

uid_in-compact : (a : ℕ) (xs : List ℕ) → uid_in a (compact xs) ≡ uid_in a xs
unfolding compact
uid_in-compact a [] = refl
uid_in-compact a (x ∷ xs) =
    ground (arith, uid_in-push_new a x (compact xs), uid_in-compact a xs, uid_in-cons a x xs)

-- The locks of a batch are taken in strictly ascending order, and on exactly the submissions of the
-- batch.
pub lock_order-IsAscending :
    (ids : List ℕ) (a : ℕ)
    → IsAscending (lock_order ids) × (uid_in a (lock_order ids) ≡ uid_in a ids)
unfolding lock_order
lock_order-IsAscending ids a = (
  compact-IsAscending (sort ids) (sort-IsSorted ids),
  ground (arith, uid_in-compact a (sort ids), uid_in-sort a ids),
)
