-- ===== src/Desktop/Counts.antt =====
-- What becomes of a session's requests.
use alex_claw.Prelude.{
  ℕ, suc, ◌+◌, ◌<◌, ◌≡◌, ◌≢◌, refl, Bool, true, Option, none, some, List, [], ◌∷◌, All, All-append,
  keep, length, length-append, arith, Bool-cases, inl, inr,
}
use alex_claw.Text.{Text, codes, starts_with}
use alex_claw.Desktop.{
  Request, CapturedAction, DesktopRecorder, new_recorder, url_path, is_interesting, short_post,
  classify, capture, on_request, on_requests, save,
}

-- 1 for a URL that does not parse.
abbrev unread : Option Text → ℕ
unread none = 1
unread (some path) = 0

-- How many of the requests have a URL that does not parse.
abbrev pub count_unread : List (Text × Request) → ℕ
count_unread [] = 0
count_unread ((now, request) ∷ rs) = unread (url_path request.url) + count_unread rs

capture_counts :
    (now : Text) (request : Request) (path : Option Text) (d : DesktopRecorder)
    → length (capture now request path d).actions
        + (capture now request path d).ignored_count
        + unread path
      ≡ length d.actions + d.ignored_count + 1
unfolding capture
capture_counts now request none d = refl
capture_counts now request (some path) d =
    ground (arith, length-append d.actions (classify now request path ∷ []))

capture_total :
    (now : Text) (request : Request) (path : Option Text) (d : DesktopRecorder)
    → (capture now request path d).request_count ≡ d.request_count
unfolding capture
capture_total now request none d = refl
capture_total now request (some path) d = ground arith

on_requests_counts :
    (rs : List (Text × Request)) (d : DesktopRecorder)
    → (length (on_requests rs d).actions + (on_requests rs d).ignored_count + count_unread rs
        ≡ length d.actions + d.ignored_count + length rs)
      × ((on_requests rs d).request_count ≡ d.request_count + length rs)
unfolding on_requests on_request
on_requests_counts [] d = (omega arith, omega arith)
on_requests_counts ((now, request) ∷ rs) d =
    let counted = record d { request_count = suc d.request_count } in
    let path = url_path request.url in
    let (kept, total) = on_requests_counts rs (capture now request path counted) in
    (
      omega (arith, kept, capture_counts now request path counted),
      omega (arith, total, capture_total now request path counted),
    )

-- In what a session saves, every request is counted once: as captured, as ignored, or as one whose
-- URL does not parse.
pub save_counts :
    (base_url output_file now : Text) (patterns : List Text) (rs : List (Text × Request))
    → let saved = save now (on_requests rs (new_recorder base_url output_file patterns)) in
      (saved.captured_actions + saved.ignored_requests + count_unread rs ≡ saved.total_requests)
      × (saved.total_requests ≡ length rs)
unfolding save new_recorder
save_counts base_url output_file now patterns rs =
    let (kept, total) = on_requests_counts rs (new_recorder base_url output_file patterns) in
    (omega (arith, kept, total), omega (arith, total))

-- The posted data is left out, or it is not empty and shorter than 500; the headers begin with "x-".
pub record IsTrimmed (a : CapturedAction) : Type 0 where
  pub short : (p : Text) → a.post_data ≡ some p → (p ≢ []) × (length p < 500)
  pub own_headers : All (λ h. starts_with h.0 (codes "x-") ≡ true) a.headers

short_post_lem : (o : Option Text) (p : Text) → short_post o ≡ some p → (p ≢ []) × (length p < 500)
unfolding short_post
short_post_lem none p h = ground arith
short_post_lem (some q) p h = ground arith

keep-All : (p : Text × Text → Bool) (l : List (Text × Text)) → All (λ h. p h ≡ true) (keep p l)
keep-All p [] = tt
keep-All p (h ∷ l) = ground (arith, keep-All p l)

classify-IsTrimmed :
    (now : Text) (request : Request) (path : Text) → IsTrimmed (classify now request path)
unfolding classify
classify-IsTrimmed now request path = record {
  short = short_post_lem request.post_data;
  own_headers = keep-All (λ h. starts_with h.0 (codes "x-")) request.headers;
}

capture-IsTrimmed :
    (now : Text) (request : Request) (path : Option Text) (d : DesktopRecorder)
    → All IsTrimmed d.actions
    → All IsTrimmed (capture now request path d).actions
unfolding capture
capture-IsTrimmed now request none d h = h
capture-IsTrimmed now request (some path) d h =
    elim (Bool-cases (is_interesting d.patterns request path)) [
      | inl kept ↦ rw kept (
          All-append IsTrimmed d.actions (classify now request path ∷ []) h
            (classify-IsTrimmed now request path, tt))
      | inr ignored ↦ rw ignored h
    ]

-- If it is so of what was captured before, a session keeps of the data that a page posts no more
-- than 499 characters of a request, and of its headers only those that begin with "x-".
pub on_requests-IsTrimmed :
    (rs : List (Text × Request)) (d : DesktopRecorder)
    → All IsTrimmed d.actions
    → All IsTrimmed (on_requests rs d).actions
unfolding on_requests on_request
on_requests-IsTrimmed [] d h = h
on_requests-IsTrimmed ((now, request) ∷ rs) d h =
    on_requests-IsTrimmed rs (on_request now request d) (
      capture-IsTrimmed now request (url_path request.url)
        (record d { request_count = suc d.request_count }) h)
