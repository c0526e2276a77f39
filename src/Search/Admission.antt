-- ===== src/Search/Admission.antt =====
-- Which filters `SubmissionsFilter.Validate` of types/types.go accepts, and what it makes of them.
use mathlib.Core.Path.{subst}
use flashpoint_submission_sy.Prelude.{
  zero, suc, ◌≤◌, String, ◌≡◌, refl, sym, ◌∙◌, ap, ◌↔◌, Bool, true, false, not, ◌&&◌, Option, none,
  some, List, [], ◌∷◌, any, All, Result, ok, err, ◌>>=◌, arith,
}
use flashpoint_submission_sy.Search.Filter.{
  ℤ, pos, negsuc, SubmissionsFilter, unzero_int, unzero_nil_pointers,
}
use flashpoint_submission_sy.Search.Validation.{
  refuse, below_one, exceeds_thousand, drop_zero, Check, is_some, passes, check_each, status_checks,
  user_checks, other_checks, asks_for_user, validate_unzeroed, validate,
}

abbrev pub AtLeastOne : Option ℤ → Type 0
AtLeastOne none = Unit
AtLeastOne (some (pos n)) = 1 ≤ n
AtLeastOne (some (negsuc n)) = ⊥

abbrev pub AllPass : List Check → Type 0
AllPass cs = All (λ c. passes c ≡ true) cs

-- A filter that passes each of the checks.
pub record IsAdmitted (f : SubmissionsFilter) : Type 0 where
  pub ids : any below_one f.submission_ids ≡ false
  pub submitter : AtLeastOne f.submitter_id
  pub size : AtLeastOne f.results_per_page
  pub size_within : exceeds_thousand f.results_per_page ≡ false
  pub page_number : AtLeastOne f.page
  pub statuses : AllPass (status_checks f)
  pub user : AtLeastOne f.assigned_status_user_id
  pub user_statuses : AllPass (user_checks f)
  pub user_given : (not (is_some f.assigned_status_user_id) && asks_for_user f) ≡ false
  pub others : AllPass (other_checks f)

bind_ok :
    {A B : Type 0} (m : Result A) (rest : A → Result B) {b : B} (h : (m >>= rest) ≡ ok b)
    → (a : A) × (m ≡ ok a) × (rest a ≡ ok b)
bind_ok (err e) rest h = absurd (ground arith)
bind_ok (ok a) rest h = (a, refl, h)

refuse_iff : (b : Bool) (msg : String) → (refuse b msg ≡ ok tt) ↔ (b ≡ false)
unfolding refuse
refuse_iff b msg = ground arith

check_each_iff : (cs : List Check) → (check_each cs ≡ ok tt) ↔ AllPass cs
unfolding check_each refuse
check_each_iff [] = (λ h. tt, λ h. refl)
check_each_iff (c ∷ cs) = (
  λ h. (ground arith, (check_each_iff cs).0 (ground arith)),
  λ h. let rest = (check_each_iff cs).1 h.1 in ground arith,
)

drop_zero-unzero_int :
    (x : Option ℤ) (msg : String) {r : Option ℤ}
    → drop_zero (unzero_int x) msg ≡ ok r
    → (r ≡ unzero_int x) × AtLeastOne r
unfolding drop_zero unzero_int
drop_zero-unzero_int none msg {r} h =
    let e : r ≡ none = ground arith in (e, subst AtLeastOne (sym e) tt)
drop_zero-unzero_int (some (pos zero)) msg {r} h =
    let e : r ≡ none = ground arith in (ground arith, subst AtLeastOne (sym e) tt)
drop_zero-unzero_int (some (pos (suc n))) msg {r} h =
    let e : r ≡ some (pos (suc n)) = ground arith in
    (ground arith, subst AtLeastOne (sym e) (omega arith))
drop_zero-unzero_int (some (negsuc n)) msg h = absurd (ground arith)

drop_zero_kept : (x : Option ℤ) (msg : String) → AtLeastOne x → drop_zero x msg ≡ ok x
unfolding drop_zero
drop_zero_kept none msg h = refl
drop_zero_kept (some (pos zero)) msg h = absurd (omega (arith, h))
drop_zero_kept (some (pos (suc n))) msg h = refl
drop_zero_kept (some (negsuc n)) msg h = absurd h

-- The four fields that validation sets, to what they were.
same_fields :
    (f : SubmissionsFilter) {submitter results page user : Option ℤ}
    → submitter ≡ f.submitter_id
    → results ≡ f.results_per_page
    → page ≡ f.page
    → user ≡ f.assigned_status_user_id
    → record f {
      submitter_id = submitter;
      results_per_page = results;
      page = page;
      assigned_status_user_id = user;
    }
      ≡ f
same_fields f p q r s = λ i. record f {
  submitter_id = p i;
  results_per_page = q i;
  page = r i;
  assigned_status_user_id = s i;
}

ok_inj {ℓ} : {A : Type ℓ} {a b : A} → ok a ≡ ok b → b ≡ a
ok_inj h = ground arith

-- A field whose zero is absent already.
abbrev IsUnzeroed : Option ℤ → Type 0
IsUnzeroed x = (msg : String) (r : Option ℤ) → drop_zero x msg ≡ ok r → (r ≡ x) × AtLeastOne r

validate_unzeroed-IsAdmitted :
    (u f : SubmissionsFilter)
    → IsUnzeroed u.submitter_id
    → IsUnzeroed u.results_per_page
    → IsUnzeroed u.page
    → IsUnzeroed u.assigned_status_user_id
    → validate_unzeroed u ≡ ok f
    → (f ≡ u) × IsAdmitted u
unfolding validate_unzeroed
validate_unzeroed-IsAdmitted u f z1 z2 z3 z4 h =
    let (t1, ids, h1) = bind_ok (refuse (any below_one u.submission_ids) _) _ h in
    let (submitter, e1, h2) = bind_ok (drop_zero u.submitter_id _) _ h1 in
    let (results, e2, h3) = bind_ok (drop_zero u.results_per_page _) _ h2 in
    let (t2, within, h4) = bind_ok (refuse (exceeds_thousand results) _) _ h3 in
    let (page, e3, h5) = bind_ok (drop_zero u.page _) _ h4 in
    let (t3, statuses, h6) = bind_ok (check_each (status_checks u)) _ h5 in
    let (user, e4, h7) = bind_ok (drop_zero u.assigned_status_user_id _) _ h6 in
    let (t4, users, h8) = bind_ok (check_each (user_checks u)) _ h7 in
    let (t5, given, h9) = bind_ok (refuse (not (is_some user) && asks_for_user u) _) _ h8 in
    let (t6, others, h10) = bind_ok (check_each (other_checks u)) _ h9 in
    let (p1, a1) = z1 _ submitter e1 in
    let (p2, a2) = z2 _ results e2 in
    let (p3, a3) = z3 _ page e3 in
    let (p4, a4) = z4 _ user e4 in
    (
      ok_inj h10 ∙ same_fields u p1 p2 p3 p4,
      record {
        ids = (refuse_iff _ _).0 ids;
        submitter = subst AtLeastOne p1 a1;
        size = subst AtLeastOne p2 a2;
        size_within = ap exceeds_thousand (sym p2) ∙ (refuse_iff _ _).0 within;
        page_number = subst AtLeastOne p3 a3;
        statuses = (check_each_iff (status_checks u)).0 statuses;
        user = subst AtLeastOne p4 a4;
        user_statuses = (check_each_iff (user_checks u)).0 users;
        user_given =
            ap (λ o. not (is_some o) && asks_for_user u) (sym p4) ∙ (refuse_iff _ _).0 given;
        others = (check_each_iff (other_checks u)).0 others;
      },
    )

admitted_validates : (u : SubmissionsFilter) → IsAdmitted u → validate_unzeroed u ≡ ok u
unfolding validate_unzeroed
admitted_validates u a =
    rw ((refuse_iff (any below_one u.submission_ids) "submission id must be >= 1").1 a.ids) (
      rw (drop_zero_kept u.submitter_id "submitter id must be >= 1" a.submitter) (
        rw (drop_zero_kept u.results_per_page "results per page must be >= 1" a.size) (
          rw
            ((refuse_iff (exceeds_thousand u.results_per_page) "results per page must be <= 1000").1
              a.size_within)
            (rw (drop_zero_kept u.page "page must be >= 1" a.page_number) (
              rw ((check_each_iff (status_checks u)).1 a.statuses) (
                rw
                  (drop_zero_kept u.assigned_status_user_id
                    "assigned-status-user-id id must be >= 1" a.user)
                  (rw ((check_each_iff (user_checks u)).1 a.user_statuses) (
                    rw
                      ((refuse_iff (not (is_some u.assigned_status_user_id) && asks_for_user u)
                          "assigned-status-user-id must be set when any of the relevant *user filters are set").1
                        a.user_given)
                      (rw ((check_each_iff (other_checks u)).1 a.others) refl)))))))))

-- Validation accepts a filter exactly when, its zeros read as absent, it passes each of the checks;
-- and it then gives the filter with its zeros absent.
pub validate_admits :
    (sf f : SubmissionsFilter)
    → (validate sf ≡ ok f) ↔ ((f ≡ unzero_nil_pointers sf) × IsAdmitted f)
unfolding validate unzero_nil_pointers
validate_admits sf f = (
  λ h.
      let (e, a) =
        validate_unzeroed-IsAdmitted (unzero_nil_pointers sf) f
          (λ msg r. drop_zero-unzero_int sf.submitter_id msg)
          (λ msg r. drop_zero-unzero_int sf.results_per_page msg)
          (λ msg r. drop_zero-unzero_int sf.page msg)
          (λ msg r. drop_zero-unzero_int sf.assigned_status_user_id msg) h in
      (e, subst IsAdmitted (sym e) a),
  λ h. admitted_validates (unzero_nil_pointers sf) (subst IsAdmitted h.0 h.1) ∙ ap ok (sym h.0),
)
