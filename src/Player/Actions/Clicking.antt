-- ===== src/Player/Actions/Clicking.antt =====
-- How long `_click` tries.
use alex_claw.Prelude.{
  ℕ, zero, suc, ◌+◌, ◌*◌, ◌/◌, ◌≤◌, true, false, not, leb, arith, Bool-cases, inl, inr,
}
use alex_claw.Text.{Text}
use alex_claw.Player.Page.{Page, State}
use alex_claw.Player.Page.Awaits.{
  Awaits, Awaits-pure, Awaits-raise, Awaits-if, Awaits-less, Awaits-catch, Awaits-bind,
  Awaits-perform, Awaits-ask,
}
use alex_claw.Player.Actions.{click_once, click_loop, click_within, click}

module _ (page : Page) (selector : Text) where
  click_once-Awaits : Awaits 3 (click_once page selector)
  unfolding click_once
  click_once-Awaits = Awaits-bind 1 2 _ _ (Awaits-ask page _ _) (λ found.
      Awaits-if (not found) 2 _ _ (Awaits-less 0 2 _ (omega arith) (Awaits-pure false)) (
        Awaits-bind 1 1 _ _ (Awaits-ask page _ _) (λ visible.
          Awaits-if (not visible) 1 _ _ (Awaits-less 0 1 _ (omega arith) (Awaits-pure false))
            (Awaits-bind 1 0 _ _ (Awaits-perform page _) (λ _. Awaits-pure true)))))

  click_loop-Awaits :
      (attempts : ℕ) (shown : Text)
      → Awaits (4 * attempts) (click_loop page attempts selector shown)
  unfolding click_loop
  click_loop-Awaits zero shown = Awaits-raise _
  click_loop-Awaits (suc attempts) shown =
      Awaits-less (3 + (1 + 4 * attempts)) (4 * suc attempts) _ (omega arith) (
        Awaits-bind 3 (1 + 4 * attempts) _ _
          (Awaits-catch 3 0 _ _ click_once-Awaits (λ _. Awaits-pure false))
          (λ clicked.
            Awaits-if clicked (1 + 4 * attempts) _ _
              (Awaits-less 0 (1 + 4 * attempts) _ (omega arith) (Awaits-pure tt))
              (Awaits-bind 1 (4 * attempts) _ _ (Awaits-perform page _)
                (λ _. click_loop-Awaits attempts shown))))

  -- Whatever the page does and raises, a click ends within four awaits for each full second of its
  -- timeout, and four more.
  pub click_bounded :
      (timeout_ms : ℕ) (s : State)
      → (click page selector timeout_ms s).1.clock ≤ s.clock + (4 * (timeout_ms / 1000) + 4)
  unfolding click click_within
  click_bounded timeout_ms s = elim (Bool-cases (leb 1 (timeout_ms / 1000))) [
    | inl long ↦ rw long (omega (arith, (click_loop-Awaits (timeout_ms / 1000) _).bound s))
    | inr short ↦ rw short (omega (arith, (click_loop-Awaits 1 _).bound s))
  ]
