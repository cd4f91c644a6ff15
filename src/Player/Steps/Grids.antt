-- ===== src/Player/Steps/Grids.antt =====
-- What `_extract_grid` makes of a page that has no grid.
use alex_claw.Prelude.{ℕ, suc, ◌≡◌, ◌≢◌, false, none, [], ◌∷◌, ◌++◌, arith}
use alex_claw.Text.{Text, codes}
use alex_claw.Path.{path_join}
use alex_claw.Player.Page.{
  Call, evaluates, saves, Page, State, ok, grid_data, perform, ask, modify, ◌>>=◌,
}
use alex_claw.Player.Steps.{error_of, grid_at, extract_grid, elsewhere}

module _ (dir : Text) (page : Page) where
  -- A grid that is not found is no error of the step: when no await raises or is cancelled and the page's answer is an
  -- error that the frames are not searched for, the step succeeds and the error is only kept among the
  -- scraped data.
  pub extract_grid_error :
      (selector : Text) (s : State)
      → ((t : ℕ) (c : Call) → page.raises t c ≡ none)
      → ((t : ℕ) → page.cancels t ≡ false)
      → error_of (grid_at dir page selector s.clock) ≢ []
      → elsewhere dir page (error_of (grid_at dir page selector s.clock)) ≡ false
      → ((extract_grid dir page selector s).0 ≡ ok tt)
        × ((extract_grid dir page selector s).1.scraped
            ≡ s.scraped ++ grid_data selector (grid_at dir page selector s.clock) ∷ [])
  unfolding extract_grid ask perform modify ◌>>=◌
  extract_grid_error selector s calm on failed here = ground (
    arith,
    calm s.clock (evaluates selector),
    calm (suc s.clock)
        (saves (path_join dir (codes "grid_" ++ (page.stamp (suc s.clock) ++ codes ".json")))),
    on s.clock,
    on (suc s.clock),
  )
