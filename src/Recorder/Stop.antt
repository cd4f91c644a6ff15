-- ===== src/Recorder/Stop.antt =====
-- The end of a recording: `async_stop`, `stop` and `_build_results`.
use alex_claw.Prelude.{
  ℕ, suc, Bool, true, false, ◌&&◌, ◌||◌, List, [], ◌∷◌, map, if◌then◌else◌, length, ltb, eqb, ◌==◌,
}
use alex_claw.Text.{Text, text_eq}
use alex_claw.Recorder.{CapturedAction, DownloadedFile, Recorder}

-- `a < b` on texts
unfoldable pub text_less : Text → Text → Bool
text_less a [] = false
text_less [] (y ∷ b) = true
text_less (x ∷ a) (y ∷ b) = ltb x y || (eqb x y && text_less a b)

-- The stable sort by timestamp of `async_stop`.
unfoldable pub insert : CapturedAction → List CapturedAction → List CapturedAction
insert a [] = a ∷ []
insert a (b ∷ bs) =
    let later = b ∷ insert a bs in if text_less b.timestamp a.timestamp then later else a ∷ b ∷ bs

unfoldable pub sort : List CapturedAction → List CapturedAction
sort [] = []
sort (a ∷ l) = insert a (sort l)

-- `d[k] = d.get(k, 0) + 1`
unfoldable pub count_in : Text → List (Text × ℕ) → List (Text × ℕ)
count_in k [] = (k, 1) ∷ []
count_in k ((j, n) ∷ d) =
    let rest = (j, n) ∷ count_in k d in if j == k then (j, suc n) ∷ d else rest

-- The loop of `_build_results` over the actions.
unfoldable pub summarise : List (Text × ℕ) → List CapturedAction → List (Text × ℕ)
summarise d [] = d
summarise d (a ∷ l) = summarise (count_in a.action_type d) l

pub record Summary : Type 0 where
  pub session_id : Text
  pub base_url : Text
  pub total_requests : ℕ
  pub ignored_requests : ℕ
  pub captured_actions : ℕ
  pub downloaded_files : List Text
  pub action_summary : List (Text × ℕ)

pub record StopResults : Type 0 where
  pub actions : List CapturedAction
  pub downloads : List DownloadedFile
  pub summary : Summary

-- `_build_results`, and `stop`
unfoldable pub build_results : Recorder → StopResults
build_results r = record {
  actions = r.captured;
  downloads = r.downloads;
  summary = record {
    session_id = r.session_id;
    base_url = r.base_url;
    total_requests = r.request_count;
    ignored_requests = r.ignored_count;
    captured_actions = length r.captured;
    downloaded_files = map DownloadedFile.filename r.downloads;
    action_summary = summarise [] r.captured;
  };
}

-- `async_stop`
unfoldable pub async_stop : Recorder → StopResults
async_stop r = build_results (record r { captured = sort r.captured })
