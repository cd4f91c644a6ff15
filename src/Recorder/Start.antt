-- ===== src/Recorder/Start.antt =====
-- `Recorder.start` on the page of a recording, and `_inject_dom_recorder`.
use alex_claw.Prelude.{ℕ, zero, suc, none, some, [], ◌++◌}
use alex_claw.Text.{Text, codes}
use alex_claw.Player.Page.{
  Error, Page, evaluates, goes, exposes, sleeps, Action, pure, raise, catch, perform, ◌>>=◌, ◌>>◌,
}
use alex_claw.Player.Actions.{runtime_error}

module _ (page : Page) (script url : Text) where
  -- The recorder's script, and the test that it runs; an exception is only logged.
  unfoldable pub inject_dom_recorder : Action Unit
  inject_dom_recorder =
      catch
        (do
          perform page (evaluates script)
          perform page (evaluates (codes "typeof window.__webAutomatorRecording")))
        (λ _. pure tt)

  -- One round of the loop.
  unfoldable pub attempt : Action Unit
  attempt = do perform page (goes url); perform page (sleeps 1000); inject_dom_recorder

  abbrev failed_load : Error → Error
  failed_load e =
      runtime_error (codes "Failed to load " ++ (url ++ (codes " after 3 attempts: " ++ e.message)))

  unfoldable pub pause : ℕ → Action Unit
  pause zero = pure tt
  pause (suc left) = perform page (sleeps 2000)

  -- The rounds that are left, and the error of the last one.
  unfoldable pub attempts : ℕ → Error → Action Unit
  attempts zero last = raise (failed_load last)
  attempts (suc left) last = do
    tried ← catch (do attempt; pure none) (λ e. do pause left; pure (some e))
    elim tried [ none ↦ pure tt | some e ↦ attempts left e ]

  -- `start`
  unfoldable pub start : Action Unit
  start = do perform page (exposes (codes "__recordAction")); attempts 3 (runtime_error [])
