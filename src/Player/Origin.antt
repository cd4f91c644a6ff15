-- ===== src/Player/Origin.antt =====
-- `_origin_of`: the origin that a login is bound to.
use alex_claw.Prelude.{ℕ, Bool, false, Option, none, some, [], ◌∷◌, ◌++◌, if◌then◌else◌, eqb, ◌==◌}
use alex_claw.Text.{Text, text_eq, codes, lower}
use alex_claw.Text.Number.{decimal}
use alex_claw.Url.{SplitResult, Port, absent, given, invalid, urlsplit, hostname, port}

-- `_DEFAULT_PORTS.get(scheme)`
abbrev pub default_port : Text → Option ℕ
default_port scheme =
    if scheme == codes "http" then some 80 else if scheme == codes "https" then some 443 else none

abbrev is_default : Option ℕ → ℕ → Bool
is_default none p = false
is_default (some d) p = eqb p d

or_empty : Option Text → Text
or_empty none = []
or_empty (some s) = s

render : Text → Text → Port → Option Text
render scheme host invalid = none
render scheme host absent = some (scheme ++ (codes "://" ++ host))
render scheme host (given p) =
    if is_default (default_port scheme) p
    then some (scheme ++ (codes "://" ++ host))
    else some (scheme ++ (codes "://" ++ (host ++ b':' ∷ decimal p)))

of_split : Option SplitResult → Option Text
of_split none = none
of_split (some u) = render (lower u.scheme) (lower (or_empty (hostname u))) (port u)

-- `none` is the `ValueError` of a URL that does not split or whose port is none.
unfoldable pub origin_of : Text → Option Text
unfolding of_split render or_empty urlsplit hostname port lower decimal
origin_of url = of_split (urlsplit url)
