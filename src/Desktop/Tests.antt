-- ===== src/Desktop/Tests.antt =====
-- A session of the desktop recorder with a page, a picture and a form.
use alex_claw.Prelude.{
  ◌↔◌, ◌⊎◌, if◌then◌else◌, true, false, any, keep, ltb, ◌≡◌, refl, none, some, List, [], ◌∷◌,
}
use alex_claw.Text.{Text, text_eq, codes, lower, has_text}
use alex_claw.Url.{urlsplit}
use alex_claw.Path.{path_join, dirname}
use alex_claw.Desktop.{
  Request, DesktopRecorder, new_recorder, url_path, path_of, without_params, kind, save_dir,
}
use alex_claw.Desktop.Session.{
  Course, answers, refuses, returns, raises, interrupted, terminates, removes_profile, run,
}
use alex_claw.Desktop.Session.Ends.{
  is_saves, is_removal, is_termination, Answered, Interrupted, run_saves_iff,
}

abbrev page : Request
page = record {
  url = codes "https://shop.example/orders;v=2?year=1";
  method = codes "GET";
  resource_type = codes "document";
  post_data = none;
  headers = [];
}

abbrev picture : Request
picture = record page { url = codes "https://shop.example/logo.png"; resource_type = codes "image" }

abbrev form : Request
form = record page {
  url = codes "https://shop.example/Login";
  method = codes "POST";
  post_data = some (codes "user=alice");
  headers = (codes "x-token", codes "1") ∷ (codes "cookie", codes "2") ∷ [];
}

abbrev session : List (Text × Request)
session = (codes "t1", page) ∷ (codes "t2", picture) ∷ (codes "t3", form) ∷ []

abbrev fresh : DesktopRecorder
fresh = new_recorder (codes "https://shop.example") (codes "/tmp/out/rec.json") []

page_path : url_path page.url ≡ some (codes "/orders")
unfolding url_path path_of urlsplit without_params text_eq
page_path = refl

form_kind : kind form (codes "/Login") ≡ (codes "login", codes "Login/authentication")
unfolding kind has_text lower
form_kind = refl

kept_dir : save_dir (codes "/tmp/out/rec.json") ≡ codes "/tmp/out/downloads"
unfolding save_dir dirname path_join
kept_dir = refl

-- Chrome answers at the third attempt, and does not end when it is told to.
abbrev slow_chrome : Course
slow_chrome = record {
  attempts = λ i. if ltb 1 i then answers else refuses;
  connection = returns;
  enter = interrupted;
  cookies = raises;
  chrome_ends = false;
}

run_saves_iff_example :
    let events = (run slow_chrome).0 in
    ((any is_saves events ≡ true) ↔ Answered slow_chrome)
    × ((Interrupted slow_chrome × (keep is_termination events ≡ []) × (keep is_removal events ≡ []))
        ⊎ (¬ Interrupted slow_chrome
            × (keep is_termination events ≡ terminates ∷ [])
            × (keep is_removal events ≡ removes_profile ∷ [])))
run_saves_iff_example = run_saves_iff slow_chrome
