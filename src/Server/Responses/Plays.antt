-- ===== src/Server/Responses/Plays.antt =====
-- What the answer of a play says about its run.
use alex_claw.Prelude.{ℕ, ◌≡◌, ◌≢◌, ◌↔◌, ◌⊎◌, refl, none, some, arith}
use alex_claw.Text.{Text, codes}
use alex_claw.Contract.{Recipe}
use alex_claw.Player.Page.{Page, State, Result, ok, raised, cancelled}
use alex_claw.Player.Steps.{Report, start, run_recipe, conclude, conclude_error, run}
use alex_claw.Models.{PlayResponse}
use alex_claw.Server.Responses.{
  PlayEnding, returned, failed, timed_out, stopped, aborted, report_response, play_response,
}

conclude_response :
    (dir : Text) (page : Page) (config : Recipe) (r : Result Unit) (s : State) (report : Report)
    → (conclude dir page config r s).0 ≡ ok report
    → let answer = report_response report in
      ((answer.status ≡ codes "success") ↔ (r ≡ ok tt))
      × ((answer.error ≡ none) ↔ (r ≡ ok tt))
      × ((answer.output ≢ none) ↔ (r ≡ ok tt))
unfolding report_response conclude conclude_error
conclude_response dir page config (ok u) s report e = ground (arith, e)
conclude_response dir page config (raised x) s report e = ground (arith, e)
conclude_response dir page config cancelled s report e = absurd (ground (arith, e))

-- The answer of a play whose run returns a report says "success", has an output and has no error
-- exactly when its recipe ran to the end without an exception, the last screenshot included; and no
-- other ending of a play is answered with "success" or without an error.
pub play_response-success_iff :
    (deadline_ms : ℕ) (dir : Text) (page : Page) (config : Recipe) (report : Report)
    → (run dir page config).0 ≡ ok report
    → let answer = report_response report in
      let ran = ((run_recipe dir page config start).0 ≡ ok tt) in
      (play_response deadline_ms (returned report) ≡ some answer)
      × ((answer.status ≡ codes "success") ↔ ran)
      × ((answer.error ≡ none) ↔ ran)
      × ((answer.output ≢ none) ↔ ran)
      × ((ending : PlayEnding) (other : PlayResponse)
          → play_response deadline_ms ending ≡ some other
          → (other.status ≡ codes "success") ⊎ (other.error ≡ none)
          → (r : Report) × (ending ≡ returned r))
unfolding play_response run
play_response-success_iff deadline_ms dir page config report e =
    let (succeeds, clean, has_output) =
      conclude_response dir page config (run_recipe dir page config start).0
        (run_recipe dir page config start).1 report e in
    (refl, succeeds, clean, has_output, other_endings)
  where
    other_endings :
        (ending : PlayEnding) (other : PlayResponse)
        → play_response deadline_ms ending ≡ some other
        → (other.status ≡ codes "success") ⊎ (other.error ≡ none)
        → (r : Report) × (ending ≡ returned r)
    other_endings (returned r) other e s = (r, refl)
    other_endings (failed message) other e s = absurd (ground arith)
    other_endings timed_out other e s = absurd (ground arith)
    other_endings stopped other e s = absurd (ground arith)
    other_endings aborted other e s = absurd (ground arith)
