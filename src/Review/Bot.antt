-- ===== src/Review/Bot.antt =====
-- service/siteservice_submissionreceiver.go: what the program makes of the validator's response to an
-- upload: the automatic freeze, the warning that is taken out, and the validator's comment
-- (`convertValidatorResponseToComment`).
use Prim.Native.String.{◌++◌ as str_append}
use flashpoint_submission_sy.Prelude.{
  ℕ, zero, suc, ◌≤◌, ◌≡◌, ◌↔◌, refl, Bool, true, false, ◌&&◌, String, List, [], ◌∷◌, ◌++◌, arith,
  any, length, ltb, ◌==◌, if◌then◌else◌,
}
use flashpoint_submission_sy.Constants.Actions.{Action, approve, request_changes}

-- The index at which the `range` loop leaves its variable: that of the first warning of the test, or
-- of the last warning where none passes it.
unfoldable pub warning_index : (String → Bool) → List String → ℕ
warning_index test [] = 0
warning_index test (w ∷ []) = 0
warning_index test (w ∷ v ∷ ws) =
    let rest = warning_index test (v ∷ ws) in if test w then 0 else suc rest

-- `append(ws[:i], ws[i+1:]...)`
unfoldable pub remove_at : ℕ → List String → List String
remove_at i [] = []
remove_at zero (w ∷ ws) = ws
remove_at (suc i) (w ∷ ws) = w ∷ remove_at i ws

-- `shouldAutofreeze`; the test is `strings.Contains(warning, "Curation should be frozen")`.
unfoldable pub should_autofreeze : (String → Bool) → List String → Bool
should_autofreeze test ws = any test ws

-- The warnings that are left for the comment.
unfoldable pub remaining_warnings : (String → Bool) → List String → List String
unfolding warning_index remove_at
remaining_warnings test ws = if ltb 0 (length ws) then remove_at (warning_index test ws) ws else ws

abbrev listed : String → List String → String
listed mark [] = ""
listed mark (m ∷ ms) = str_append mark (str_append m (str_append "\n" (listed mark ms)))

-- A comment of the validator, without its id and time.
pub record ValidatorComment : Type 0 where
  pub action : Action
  pub message : String

unfoldable pub convert_validator_response_to_comment :
    List String → List String → Bool → ValidatorComment
convert_validator_response_to_comment errors warnings autofreeze =
    let head =
      if ltb 0 (length errors)
      then "Your curation is invalid:\n"
      else if ltb 0 (length warnings)
      then "Your curation might have some problems:\n"
      else "" in
    let quip =
      if autofreeze
      then "\n\n This submission will be automatically frozen after validation."
      else "" in
    let message =
      str_append head
        (str_append (listed "🚫 " errors) (str_append (listed "⚠\u{fe0f} " warnings) quip)) in
    if length errors == 0 && length warnings == 0
    then record { action = approve; message = str_append "Looks good to me! 🤖" quip }
    else record { action = request_changes; message = message }

-- The comment on the response of the validator.
unfoldable pub bot_comment : (String → Bool) → List String → List String → ValidatorComment
unfolding should_autofreeze remaining_warnings
bot_comment test errors warnings =
    convert_validator_response_to_comment errors (remaining_warnings test warnings)
      (should_autofreeze test warnings)

length-remaining_warnings :
    (test : String → Bool) (w : String) (ws : List String)
    → length (remove_at (warning_index test (w ∷ ws)) (w ∷ ws)) ≡ length ws
unfolding remove_at warning_index
length-remaining_warnings test w [] = refl
length-remaining_warnings test w (v ∷ ws) = ground (arith, length-remaining_warnings test v ws)

-- The validator approves an upload exactly when it has no error and at most one warning, whatever the
-- warning is.
pub bot_comment_iff :
    (test : String → Bool) (errors warnings : List String)
    → ((bot_comment test errors warnings).action ≡ approve)
      ↔ ((errors ≡ []) × (length warnings ≤ 1))
unfolding bot_comment remaining_warnings convert_validator_response_to_comment
bot_comment_iff test [] [] = ground arith
bot_comment_iff test [] (w ∷ ws) = ground (arith, length-remaining_warnings test w ws)
bot_comment_iff test (e ∷ errors) [] = ground arith
bot_comment_iff test (e ∷ errors) (w ∷ ws) = ground (arith, length-remaining_warnings test w ws)

-- Of warnings with a first one that asks for a freeze, that one is taken out and all others stay.
pub remaining_warnings-append :
    (test : String → Bool) (before : List String) (w : String) (after : List String)
    → any test before ≡ false
    → test w ≡ true
    → remaining_warnings test (before ++ w ∷ after) ≡ before ++ after
unfolding remaining_warnings remove_at warning_index
remaining_warnings-append test [] w [] none_before h = refl
remaining_warnings-append test [] w (v ∷ after) none_before h = ground arith
remaining_warnings-append test (b ∷ []) w after none_before h =
    ground (arith, remaining_warnings-append test [] w after refl h)
remaining_warnings-append test (b ∷ c ∷ before) w after none_before h =
    ground (arith, remaining_warnings-append test (c ∷ before) w after)
