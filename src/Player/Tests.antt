-- ===== src/Player/Tests.antt =====
-- Runs on concrete pages.
use alex_claw.Prelude.{
  Option, some, eqb, ℕ, ◌≤◌, suc, ◌+◌, ◌*◌, ◌/◌, ◌≡◌, refl, true, false, none, some, List, [], ◌∷◌,
  ◌++◌, map, All, arith,
}
use alex_claw.Text.{Text, text_eq, codes}
use alex_claw.Contract.{
  Step, Recipe, recipe_ok, step_ok, name_ok, http_url, checked_url, has_http_host, is_host,
}
use alex_claw.Url.{urlsplit, hostname}
use alex_claw.Text.Laws.{Lacks}
use alex_claw.Player.Steps.Files.{IsInside, run-IsInside}
use alex_claw.Player.Page.{no_response, Page, Call, Error, types, ok, raised, raise, ◌>>=◌}
use alex_claw.Player.Origin.{origin_of}
use alex_claw.Player.Actions.Clicking.{click_bounded}
use alex_claw.Player.Actions.{click, runtime_error, fill, find_element, element, on_origin}
use alex_claw.Player.Actions.Secrecy.{fill-outcome}
use alex_claw.Player.Actions.Waiting.{IsClock, element_fuel}
use alex_claw.Player.Actions.Typing.{IsTyped, IsShot}
use alex_claw.Player.Steps.{run, start, Report, run_steps, run_step}
use alex_claw.Player.Steps.Dicts.{fields, run_dicts, run_dicts-dump}
use alex_claw.Player.Steps.Cancelling.{IsEnding, run-IsEnding, run-reports}
use alex_claw.Player.Steps.Shapes.{IsShapely}
use alex_claw.Player.Steps.Scraping.{run-IsShapely}
use alex_claw.Player.Steps.Typing.{IsAllowed, run-IsAllowed}
use alex_claw.Player.Steps.Stopping.{play_steps, run_stops}

-- A page on one origin that never raises; two seconds pass at each await.
abbrev calm_page : Page
calm_page = record {
  raises = λ t call. none;
  cancels = λ t. false;
  url = λ t. codes "https://ok.example/login";
  loaded = λ t. no_response;
  present = λ t. true;
  visible = λ t. true;
  tag = λ t. codes "INPUT";
  downloaded = λ t. none;
  widget = λ t. record {
    jquery = true;
    raised = none;
    found = true;
    is_grid = true;
    rows = [];
    columns = none;
  };
  document = λ t. record { tables = λ s. []; grids = []; containers = λ s. [] };
  frames = λ t. [];
  text = λ t. [];
  time = λ t. t * 2000;
  stamp = λ t. codes "20260101_000000";
  today = λ t. codes "01/01/2026";
  yesterday = λ t. codes "31/12/2025";
}

abbrev bound_fill : Text → Step
bound_fill origin = Step.fill (codes "#pw") (codes "s3cret") false (some origin) none

abbrev elsewhere_recipe : List Step
elsewhere_recipe = bound_fill (codes "https://evil.example") ∷ []

abbrev login : Recipe
login = record {
  url = codes "https://ok.example";
  steps = bound_fill (codes "https://OK.example:443") ∷ [];
}

calm-IsClock : IsClock calm_page
calm-IsClock = record { forward = λ t. omega arith; sleeps_on = λ t. omega arith }

origins_agree :
    origin_of (codes "https://OK.example:443") ≡ origin_of (codes "https://ok.example/login")
unfolding origin_of text_eq
origins_agree = refl

run-IsAllowed_example :
    All (IsTyped (IsAllowed calm_page login.steps)) (run (codes "/tmp") calm_page login).1.log
run-IsAllowed_example = run-IsAllowed (codes "/tmp") calm_page login

-- A page whose keyboard fails, with the text in the message of its exception.
abbrev tell : Call → Option Error
tell (types v) = some (record { type_name = codes "TimeoutError"; message = v })
tell _ = none

abbrev telling_page : Page
telling_page = record calm_page { raises = λ t call. tell call }

fill-outcome_example :
    (fill telling_page (codes "#pw") (codes "a") false 1000 none start).0
    ≡ (fill telling_page (codes "#pw") (codes "b") false 1000 none start).0
fill-outcome_example =
    fill-outcome telling_page (codes "a") (codes "b") (codes "#pw") 1000 none start (λ t. refl)

element_fuel_example :
    element calm_page (codes "#a") 1000 start
    ≡ find_element calm_page (suc (suc (1000 / 250)) + 7) (codes "#a") (0 + 1000) start
element_fuel_example = element_fuel calm_page (codes "#a") 1000 7 start calm-IsClock

elsewhere_fails :
    (play_steps (codes "/tmp") calm_page [] elsewhere_recipe start).0
    ≡ raised (runtime_error (codes "fill #pw refused: the page is not on the login's origin"))
unfolding run_steps run_step fill on_origin origin_of text_eq ◌>>=◌
elsewhere_fails = refl

run_stops_example :
    run (codes "/tmp") calm_page (record { url = []; steps = elsewhere_recipe ++ login.steps })
    ≡ run (codes "/tmp") calm_page (record { url = []; steps = elsewhere_recipe })
run_stops_example =
    run_stops (codes "/tmp") calm_page [] elsewhere_recipe login.steps _ elsewhere_fails

-- A page whose elements stay hidden.
abbrev hidden_page : Page
hidden_page = record calm_page { visible = λ t. false }

click_bounded_example :
    (click hidden_page (codes "#go") 2500 start).1.clock ≤ start.clock + (4 * (2500 / 1000) + 4)
click_bounded_example = click_bounded hidden_page (codes "#go") 2500 start

abbrev shooting : Recipe
shooting = record {
  url = codes "https://ok.example";
  steps =
      Step.screenshot none none none ∷ Step.screenshot (some (codes "after-login")) none none ∷ [];
}

shooting_ok : recipe_ok shooting ≡ true
unfolding recipe_ok step_ok name_ok http_url urlsplit checked_url has_http_host is_host hostname
    text_eq
shooting_ok = refl

calm_stamps : (t : ℕ) → Lacks b'/' (calm_page.stamp t)
calm_stamps t = ground arith

run-IsInside_example :
    All
      (IsShot (IsInside (codes "/tmp/downloads")))
      (run (codes "/tmp/downloads") calm_page shooting).1.log
run-IsInside_example =
    run-IsInside (codes "/tmp/downloads") calm_page calm_stamps shooting shooting_ok

run_dicts-dump_example :
    run_dicts (codes "/tmp") calm_page (raise (runtime_error [])) 0 (map fields shooting.steps)
    ≡ run_steps (codes "/tmp") calm_page 0 shooting.steps
run_dicts-dump_example =
    run_dicts-dump (codes "/tmp") calm_page (raise (runtime_error [])) fields (λ s k. refl) 0
      shooting.steps

-- A page with one table.
abbrev priced_page : Page
priced_page = record calm_page {
  document = λ t. record {
    tables = λ s.
        record {
          head = none;
          all_rows =
              record { node = 1; cells = codes "Item" ∷ codes "Price" ∷ [] }
              ∷ record { node = 2; cells = codes "Tea" ∷ codes "3" ∷ [] }
              ∷ [];
          body_rows = [];
        }
        ∷ [];
    grids = [];
    containers = λ s. [];
  };
}

abbrev scraping : Recipe
scraping = record {
  url = [];
  steps = Step.scrape none none ∷ Step.extract_grid (codes "#grid") none ∷ [];
}

abbrev scraped_report :
    (report : Report) × ((run (codes "/tmp") priced_page scraping).0 ≡ ok report)
scraped_report = run-reports (codes "/tmp") priced_page scraping (λ t. refl)

run-IsShapely_example : All IsShapely scraped_report.0.scraped
run-IsShapely_example =
    run-IsShapely (codes "/tmp") priced_page scraping scraped_report.0 scraped_report.1

-- A run that is stopped while it waits for the page of a login.
abbrev stopped_page : Page
stopped_page = record calm_page { cancels = λ t. eqb t 2 }

run-IsEnding_example :
    IsEnding stopped_page
      (run (codes "/tmp") stopped_page login).0
      (run (codes "/tmp") stopped_page login).1.clock
run-IsEnding_example = run-IsEnding (codes "/tmp") stopped_page login
