-- ===== src/Url.antt =====
-- Python's `urllib.parse.urlsplit` and the `hostname` and `port` of its result.
use alex_claw.Prelude.{
  ℕ, Bool, true, false, ◌&&◌, ◌||◌, not, Option, none, some, [], ◌∷◌, ◌++◌, ltb, leb, eqb,
  if◌then◌else◌, all, is_empty, keep, list_eq,
}
use alex_claw.Text.{
  Text, codes, partition, rpartition, in_range, has_char, lower, drop_while, starts_with,
}
use alex_claw.Text.Number.{is_ascii_digit, int_of_digits}
use alex_claw.Ip.{Address, v6, ip_address}

pub record SplitResult : Type 0 where
  pub scheme : Text
  pub netloc : Text
  pub path : Text
  pub query : Text
  pub fragment : Text

abbrev is_letter : ℕ → Bool
is_letter c = in_range b'a' b'z' c || in_range b'A' b'Z' c

abbrev is_scheme_char : ℕ → Bool
is_scheme_char c = is_letter c || is_ascii_digit c || eqb c b'+' || eqb c b'-' || eqb c b'.'

-- Tabs and line ends are removed wherever they stand.
abbrev is_url_char : ℕ → Bool
is_url_char c = not (eqb c 9 || eqb c 10 || eqb c 13)

abbrev starts_alpha : Text → Bool
starts_alpha [] = false
starts_alpha (c ∷ _) = is_letter c

-- The scheme, and what follows its colon.
split_scheme : Text → Text × Text
split_scheme url =
    let p = partition b':' url in
    if p.found && starts_alpha p.before && all is_scheme_char p.before
    then (lower p.before, p.after)
    else ([], url)

abbrev is_delimiter : ℕ → Bool
is_delimiter c = eqb c b'/' || eqb c b'?' || eqb c b'#'

-- Up to the first "/", "?" or "#", and from there on.
split_netloc : Text → Text × Text
split_netloc [] = ([], [])
split_netloc (c ∷ s) =
    let (n, r) = split_netloc s in if is_delimiter c then ([], c ∷ s) else (c ∷ n, r)

authority : Text → Text × Text
authority (a ∷ b ∷ s) = if eqb a b'/' && eqb b b'/' then split_netloc s else ([], a ∷ b ∷ s)
authority s = ([], s)

abbrev is_hex : ℕ → Bool
is_hex c = is_ascii_digit c || in_range b'a' b'f' c || in_range b'A' b'F' c

-- `v<hex>.<rest>`, both parts non-empty.
is_future : Text → Bool
is_future s =
    let p = partition b'.' s in
    p.found && not (is_empty p.before) && all is_hex p.before && not (is_empty p.after)

is_v6 : Option Address → Bool
is_v6 (some (v6 _)) = true
is_v6 _ = false

bracketed_host : Text → Bool
bracketed_host [] = is_v6 (ip_address [])
bracketed_host (c ∷ s) = if eqb c b'v' then is_future s else is_v6 (ip_address (c ∷ s))

-- The host in brackets stands alone, but for a port after a colon.
brackets_ok : Text → Bool
brackets_ok netloc =
    let opened = partition b'[' (rpartition b'@' netloc).after in
    let closed = partition b']' opened.after in
    if opened.found
    then is_empty opened.before
      && (is_empty closed.after || starts_with closed.after (codes ":"))
      && bracketed_host closed.before
    else bracketed_host (partition b':' (rpartition b'@' netloc).after).before

-- Brackets come in pairs, and hold a version 6 or a future address.
netloc_ok : Text → Bool
netloc_ok netloc =
    let open_br = has_char netloc b'[' in
    let close_br = has_char netloc b']' in
    if open_br && close_br then brackets_ok netloc else not (open_br || close_br)

-- `none` is the `ValueError`.
unfoldable pub urlsplit : Text → Option SplitResult
unfolding split_scheme authority split_netloc netloc_ok brackets_ok bracketed_host is_v6 is_future
    partition rpartition lower drop_while starts_with ip_address
urlsplit url =
    let (scheme, rest) = split_scheme (keep is_url_char (drop_while (λ c. leb c 32) url)) in
    let (netloc, local) = authority rest in
    let f = partition b'#' local in
    let q = partition b'?' f.before in
    if netloc_ok netloc
    then some (record {
      scheme = scheme;
      netloc = netloc;
      path = q.before;
      query = q.after;
      fragment = f.after;
    })
    else none

-- The host and the text of the port, user information dropped.
host_info : Text → Text × Text
host_info netloc =
    let info = (rpartition b'@' netloc).after in
    let opened = partition b'[' info in
    let closed = partition b']' opened.after in
    let plain = partition b':' info in
    if opened.found
    then (closed.before, (partition b':' closed.after).after)
    else (plain.before, plain.after)

-- `parts.hostname`: lower case but for a zone; `none` when it is empty.
unfoldable pub hostname : SplitResult → Option Text
unfolding host_info partition rpartition lower
hostname u =
    let host = (host_info u.netloc).0 in
    let p = partition b'%' host in
    if is_empty host
    then none
    else some (lower p.before ++ (if p.found then b'%' ∷ p.after else []))

pub data Port : Type 0 where
  absent : Port
  given : ℕ → Port
  invalid : Port

port_of : Option ℕ → Port
port_of none = invalid
port_of (some n) = if ltb 65535 n then invalid else given n

-- `parts.port`; `invalid` is the `ValueError`.
unfoldable pub port : SplitResult → Port
unfolding host_info port_of partition rpartition int_of_digits
port u = let s = (host_info u.netloc).1 in if is_empty s then absent else port_of (int_of_digits s)
