-- ===== src/Player/Actions/Tests.antt =====
-- The timeout of a click, as its error prints it.
use alex_claw.Prelude.{◌≡◌, refl}
use alex_claw.Text.{codes}
use alex_claw.Text.Number.{decimal}
use alex_claw.Player.Actions.{seconds}

half_seconds : seconds 2500 ≡ codes "2.5"
unfolding seconds decimal
half_seconds = refl

whole_seconds : seconds 30000 ≡ codes "30.0"
unfolding seconds decimal
whole_seconds = refl

thousandths : seconds 1005 ≡ codes "1.005"
unfolding seconds decimal
thousandths = refl
