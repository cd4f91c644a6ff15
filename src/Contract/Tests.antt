-- ===== src/Contract/Tests.antt =====
-- URLs and origins of recipes.
use alex_claw.Prelude.{◌≡◌, ◌↔◌, refl, true, false, some}
use alex_claw.Text.{Text, text_eq, codes}
use alex_claw.Url.{SplitResult, urlsplit, hostname}
use alex_claw.Contract.{http_url, origin, checked_url, has_http_host, is_host, bare_origin}
use alex_claw.Contract.Urls.{IsHttp, IsBare, origin_iff}

abbrev page : Text
page = codes "https://example.com/login?next=1"

page_is_url : http_url page ≡ true
unfolding http_url checked_url has_http_host is_host urlsplit hostname text_eq
page_is_url = refl

page_is_no_origin : origin page ≡ false
unfolding origin bare_origin http_url urlsplit hostname text_eq
page_is_no_origin = refl

origin_iff_example :
    (origin page ≡ true) ↔ ((u : SplitResult) × (urlsplit page ≡ some u) × IsBare u × IsHttp u)
origin_iff_example = origin_iff page
