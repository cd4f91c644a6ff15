-- ===== src/Models.antt =====
-- web-automator/app/models.py: the requests and the responses of the API, those that no route uses
-- included.
use alex_claw.Prelude.{ℕ, Bool, ◌&&◌, ◌||◌, Option, List, [], ◌∷◌, leb, eqb, all, length}
use alex_claw.Text.{Text, codes, in_range}
use alex_claw.Contract.{Recipe, recipe_ok}
use alex_claw.Recorder.{DownloadedFile}
use alex_claw.Recorder.Stop.{Summary}
use alex_claw.Player.Page.{Scraped}
use alex_claw.Server.State.{SessionState}

pub data ActionType : Type 0 where
  navigate click fill select download_click keyboard wait login interaction : ActionType

-- `CapturedAction` of the API, which is not the recorder's.
pub record CapturedAction : Type 0 where
  pub timestamp : Text
  pub action_type : Text
  pub description : Text
  pub selector : Option Text
  pub value : Option Text
  pub checked : Option Bool
  pub url : Option Text
  pub post_data : Option Text
  pub headers : Option (List (Text × Text))

-- The patterns of a `RecordRequest` that names none.
abbrev request_patterns : List Text
request_patterns =
    codes "download"
    ∷ codes "export"
    ∷ codes "filter"
    ∷ codes "button"
    ∷ codes "login"
    ∷ codes "menu"
    ∷ codes "submit"
    ∷ []

pub record RecordRequest : Type 0 where
  pub url : Text
  pub patterns : List Text
  pub timeout : ℕ

-- A request that gives the URL only.
abbrev pub record_request : Text → RecordRequest
record_request url = record { url = url; patterns = request_patterns; timeout = 300 }

pub record InteractStep : Type 0 where
  pub action : Text
  pub selector : Option Text
  pub value : Option Text
  pub url : Option Text
  pub timeout : Option ℕ
  pub description : Option Text

pub record RecordStartResponse : Type 0 where
  pub session_id : Text
  pub novnc_url : Text

pub record RecordStopResponse : Type 0 where
  pub actions : List CapturedAction
  pub downloads : List DownloadedFile
  pub summary : Summary

-- `PlayRequest`
pub record PlayRequest : Type 0 where
  pub play_id : Text
  pub deadline_ms : ℕ
  pub config : Recipe

abbrev is_id_char : ℕ → Bool
is_id_char c = in_range b'A' b'Z' c || in_range b'a' b'z' c || in_range b'0' b'9' c || eqb c b'-'

-- `^[A-Za-z0-9-]{8,64}$`
abbrev id_ok : Text → Bool
id_ok s = all is_id_char s && leb 8 (length s) && leb (length s) 64

-- What the fields of `PlayRequest` demand.
unfoldable pub request_ok : PlayRequest → Bool
request_ok r =
    id_ok r.play_id && leb 1000 r.deadline_ms && leb r.deadline_ms 600000 && recipe_ok r.config

pub record PlayResponse : Type 0 where
  pub status : Text
  pub output : Option Text
  pub downloads : List Text
  pub screenshots : List Text
  pub scraped_data : List Scraped
  pub error : Option Text

pub record StatusResponse : Type 0 where
  pub state : SessionState
  pub session_id : Option Text
  pub play_id : Option Text
  pub started_at : Option Text
  pub progress : Option Text

pub record ScrapeRequest : Type 0 where
  pub url : Text
  pub selector : Text
  pub format : Text
  pub wait : ℕ

-- A request that gives the URL only.
abbrev pub scrape_request : Text → ScrapeRequest
scrape_request url = record { url = url; selector = codes "table"; format = codes "json"; wait = 3 }

-- `Table` is the `dict` of a table.
pub record ScrapeResponse (Table : Type 0) : Type 0 where
  pub status : Text
  pub url : Text
  pub tables : List Table
  pub error : Option Text

pub record HealthResponse : Type 0 where
  pub status : Text
  pub version : Text
