-- ===== src/Desktop.antt =====
-- web-automator/recorder_desktop.py: which requests of a browsing session the desktop recorder keeps,
-- and what it writes. What it prints is not modelled.
mod Tests
pub mod Counts
pub mod Session
use alex_claw.Prelude.{
  ℕ, suc, ◌+◌, Bool, true, false, ◌&&◌, ◌||◌, not, Option, none, some, List, [], ◌∷◌, ◌++◌, reverse,
  map, if◌then◌else◌, any, keep, contains, length, is_empty, ltb, eqb, ◌==◌,
}
use alex_claw.Text.{
  Text, text_eq, codes, lower, has_text, starts_with, drop_while, partition, rpartition,
}
use mathlib.Core.Option
use alex_claw.Url.{SplitResult, urlsplit}
use alex_claw.Path.{path_join, dirname}

-- What the recorder reads of a request.
pub record Request : Type 0 where
  pub url : Text
  pub method : Text
  pub resource_type : Text
  pub post_data : Option Text
  pub headers : List (Text × Text)

-- `CapturedAction`, whose `selector` and `value` this recorder leaves at None.
pub record CapturedAction : Type 0 where
  pub timestamp : Text
  pub action_type : Text
  pub description : Text
  pub url : Text
  pub post_data : Option Text
  pub headers : List (Text × Text)

pub record DownloadedFile : Type 0 where
  pub timestamp : Text
  pub filename : Text
  pub url : Text
  pub saved_to : Text
  pub trigger_action : Option Text

abbrev ignore_extensions : List Text
ignore_extensions =
    codes ".svg"
    ∷ codes ".png"
    ∷ codes ".jpg"
    ∷ codes ".jpeg"
    ∷ codes ".gif"
    ∷ codes ".webp"
    ∷ codes ".css"
    ∷ codes ".js"
    ∷ codes ".woff"
    ∷ codes ".woff2"
    ∷ codes ".ttf"
    ∷ codes ".ico"
    ∷ codes ".map"
    ∷ []

abbrev ignore_paths : List Text
ignore_paths = codes "/pong" ∷ codes "/heartbeat" ∷ codes "/health" ∷ codes "/ping" ∷ []

abbrev default_patterns : List Text
default_patterns =
    codes "download"
    ∷ codes "export"
    ∷ codes "filter"
    ∷ codes "button"
    ∷ codes "login"
    ∷ codes "menu"
    ∷ codes "submit"
    ∷ codes "search"
    ∷ codes "report"
    ∷ []

-- The schemes whose last path segment may have parameters.
abbrev uses_params : List Text
uses_params =
    []
    ∷ codes "ftp"
    ∷ codes "hdl"
    ∷ codes "prospero"
    ∷ codes "http"
    ∷ codes "https"
    ∷ codes "shttp"
    ∷ codes "rtsp"
    ∷ codes "rtsps"
    ∷ codes "rtspu"
    ∷ codes "sip"
    ∷ codes "sips"
    ∷ codes "mms"
    ∷ codes "sftp"
    ∷ codes "tel"
    ∷ []

without_params : Text → Text
without_params path =
    let p = rpartition b'/' path in
    if p.found
    then p.before ++ b'/' ∷ (partition b';' p.after).before
    else (partition b';' path).before

path_of : Option SplitResult → Option Text
path_of none = none
path_of (some u) = some (if contains uses_params u.scheme then without_params u.path else u.path)

-- `urlparse(url).path`; `none` is its `ValueError`.
pub url_path : Text → Option Text
url_path url = path_of (urlsplit url)

abbrev or_empty : Option Text → Text
or_empty none = []
or_empty (some s) = s

abbrev ends_with : Text → Text → Bool
ends_with s t = starts_with (reverse s) (reverse t)

-- The values of the `x-` headers, in lower case, behind each other.
header_text : List (Text × Text) → Text
header_text [] = []
header_text ((key, value) ∷ headers) =
    let rest = header_text headers in
    if starts_with key (codes "x-") then lower value ++ rest else rest

-- `_is_interesting` of a request with this path, without its counter.
pub is_interesting : List Text → Request → Text → Bool
is_interesting patterns request path =
    if any (ends_with path) ignore_extensions
    then false
    else if contains ignore_paths (lower path)
    then false
    else if request.method == codes "POST"
    then any (has_text (lower (path ++ or_empty request.post_data) ++ header_text request.headers))
        patterns
      || ltb 2 (length (or_empty request.post_data))
    else contains (codes "document" ∷ codes "xhr" ∷ codes "fetch" ∷ []) request.resource_type

abbrev has_any : Text → List Text → Bool
has_any combined = any (has_text combined)

-- The kind and the description that `_classify` chooses.
kind : Request → Text → Text × Text
kind request path =
    let combined = lower (path ++ or_empty request.post_data) in
    if has_any combined (codes "login" ∷ codes "auth" ∷ codes "signin" ∷ [])
    then (codes "login", codes "Login/authentication")
    else if has_any combined
        (codes "download" ∷ codes "export" ∷ codes "excel" ∷ codes "csv" ∷ codes "pdf" ∷ [])
    then (codes "download_click", codes "Download triggered")
    else if has_any combined (codes "filter" ∷ codes "search" ∷ codes "query" ∷ [])
    then (codes "filter", codes "Filter/search: " ++ path)
    else if request.resource_type == codes "document"
    then (codes "navigate", codes "Navigate to " ++ path)
    else if request.method == codes "POST"
    then (codes "submit", codes "Form submit: " ++ path)
    else (codes "interaction", request.method ++ 32 ∷ path)

-- `post_data[:500] if post_data and len(post_data) < 500 else None`
short_post : Option Text → Option Text
short_post none = none
short_post (some p) = if not (is_empty p) && ltb (length p) 500 then some p else none

-- `_classify`
pub classify : Text → Request → Text → CapturedAction
classify now request path = record {
  timestamp = now;
  action_type = (kind request path).0;
  description = (kind request path).1;
  url = request.url;
  post_data = short_post request.post_data;
  headers = keep (λ h. starts_with h.0 (codes "x-")) request.headers;
}

pub record DesktopRecorder : Type 0 where
  pub base_url : Text
  pub output_file : Text
  pub patterns : List Text
  pub actions : List CapturedAction
  pub downloads : List DownloadedFile
  pub request_count : ℕ
  pub ignored_count : ℕ
  pub last_action : Option CapturedAction

-- `__init__`; no patterns or an empty list of them stand for the default ones.
pub new_recorder : Text → Text → List Text → DesktopRecorder
new_recorder base_url output_file patterns = record {
  base_url = base_url;
  output_file = output_file;
  patterns = if is_empty patterns then default_patterns else patterns;
  actions = [];
  downloads = [];
  request_count = 0;
  ignored_count = 0;
  last_action = none;
}

capture : Text → Request → Option Text → DesktopRecorder → DesktopRecorder
capture now request none d = d
capture now request (some path) d =
    if is_interesting d.patterns request path
    then record d {
      actions = d.actions ++ classify now request path ∷ [];
      last_action = some (classify now request path);
    }
    else record d { ignored_count = suc d.ignored_count }

-- `_on_request`; a URL that does not parse raises once the request is counted.
pub on_request : Text → Request → DesktopRecorder → DesktopRecorder
on_request now request d =
    capture now request (url_path request.url) (record d { request_count = suc d.request_count })

-- A session's requests, each with its time.
pub on_requests : List (Text × Request) → DesktopRecorder → DesktopRecorder
on_requests [] d = d
on_requests ((now, request) ∷ rs) d = on_requests rs (on_request now request d)

-- `os.path.join(os.path.dirname(self.output_file) or ".", "downloads")`
save_dir : Text → Text
save_dir output_file =
    path_join (if is_empty (dirname output_file) then codes "." else dirname output_file)
      (codes "downloads")

-- `_on_download`, once the file is saved.
pub on_download : Text → Text → Text → DesktopRecorder → DesktopRecorder
on_download now filename url d = record d {
  downloads =
      d.downloads
      ++ record {
        timestamp = now;
        filename = filename;
        url = url;
        saved_to = path_join (save_dir d.output_file) filename;
        trigger_action = Option.map CapturedAction.description d.last_action;
      }
        ∷ [];
}

-- What `_save` writes.
pub record Saved : Type 0 where
  pub base_url : Text
  pub recorded_at : Text
  pub actions : List CapturedAction
  pub downloads : List DownloadedFile
  pub total_requests : ℕ
  pub ignored_requests : ℕ
  pub captured_actions : ℕ
  pub downloaded_files : List Text

-- `_save`
pub save : Text → DesktopRecorder → Saved
save now d = record {
  base_url = d.base_url;
  recorded_at = now;
  actions = d.actions;
  downloads = d.downloads;
  total_requests = d.request_count;
  ignored_requests = d.ignored_count;
  captured_actions = length d.actions;
  downloaded_files = map DownloadedFile.filename d.downloads;
}
