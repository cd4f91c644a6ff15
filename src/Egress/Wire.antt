-- ===== src/Egress/Wire.antt =====
-- Heads on the wire: where they end, their lines, the headers the proxy reads or drops, and what it
-- answers when it refuses.
pub mod Errors
pub mod Authority
pub mod Heads
use alex_claw.Prelude.{
  ℕ, ◌*◌, Bool, false, ◌&&◌, ◌||◌, not, Option, none, some, List, [], ◌∷◌, ◌++◌, reverse, take, ltb,
  eqb, if◌then◌else◌, any, keep, is_empty, contains, length, ◌==◌,
}
use alex_claw.Text.{Text, text_eq, codes, partition, rpartition, lower, strip_where, is_blank, join}
use alex_claw.Text.Number.{ℤ, pos, int_of_bytes, int_of_digits, is_digit, decimal}
use alex_claw.Egress.Run.{Result, ok, raised, value_error, incomplete_read, limit_overrun}

abbrev pub crlf : Text
crlf = 13 ∷ 10 ∷ []

-- `_MAX_HEAD`, which is also the limit of an asyncio stream.
abbrev pub max_head : ℕ
max_head = 64 * 1024

abbrev starts_end : Text → Bool
starts_end (a ∷ b ∷ c ∷ d ∷ _) = eqb a 13 && eqb b 10 && eqb c 13 && eqb d 10
starts_end _ = false

abbrev after_end : Text → Text
after_end (a ∷ b ∷ c ∷ d ∷ s) = s
after_end s = []

abbrev cons_head : ℕ → Option (Text × Text) → Option (Text × Text)
cons_head c none = none
cons_head c (some (h, r)) = some (c ∷ h, r)

-- The bytes before the first blank line, and those after it.
unfoldable pub cut_head : Text → Option (Text × Text)
cut_head [] = none
cut_head (c ∷ s) =
    let longer = cons_head c (cut_head s) in
    if starts_end (c ∷ s) then some ([], after_end (c ∷ s)) else longer

read_cut : Text → Option (Text × Text) → Result (Text × Text)
read_cut stream none =
    if ltb max_head (length stream) then raised limit_overrun else raised incomplete_read
read_cut stream (some (head, rest)) =
    if ltb max_head (length head) then raised limit_overrun else ok (head, rest)

-- `head[:-4]` of `readuntil(b"\r\n\r\n")`, and the rest of the stream.
unfoldable pub read_head : Text → Result (Text × Text)
unfolding read_cut cut_head
read_head stream = read_cut stream (cut_head stream)

-- `readexactly(n)`: a negative count is a `ValueError`.
unfoldable pub read_exactly : Text → ℤ → Result Text
read_exactly stream (pos n) =
    if ltb (length stream) n then raised incomplete_read else ok (take n stream)
read_exactly stream _ = raised value_error

lines_from : Text → Text → List Text
lines_from cur [] = reverse cur ∷ []
lines_from cur (c ∷ []) = reverse (c ∷ cur) ∷ []
lines_from cur (c ∷ d ∷ s) =
    let closed = reverse cur ∷ lines_from [] s in
    let longer = lines_from (c ∷ cur) (d ∷ s) in if eqb c 13 && eqb d 10 then closed else longer

-- `head.split(b"\r\n")`
unfoldable pub lines : Text → List Text
unfolding lines_from
lines s = lines_from [] s

-- `h.split(b":", 1)[0].strip().lower()`
unfoldable pub header_name : Text → Text
unfolding lower strip_where partition
header_name h = lower (strip_where is_blank (partition b':' h).before)

abbrev pub hop_by_hop : List Text
hop_by_hop =
    codes "connection"
    ∷ codes "keep-alive"
    ∷ codes "proxy-connection"
    ∷ codes "proxy-authorization"
    ∷ []

unfoldable pub end_to_end : List Text → List Text
unfolding header_name
end_to_end headers = keep (λ h. not (contains hop_by_hop (header_name h))) headers

unfoldable pub has_header : Text → List Text → Bool
unfolding header_name
has_header name headers = any (λ h. header_name h == name) headers

int_or_error : Option ℤ → Result ℤ
int_or_error none = raised value_error
int_or_error (some n) = ok n

-- The first Content-Length wins; 0 without one.
unfoldable pub content_length : List Text → Result ℤ
unfolding int_or_error header_name int_of_bytes strip_where partition
content_length [] = ok (pos 0)
content_length (h ∷ hs) =
    if header_name h == codes "content-length"
    then int_or_error (int_of_bytes (strip_where is_blank (partition b':' h).after))
    else content_length hs

-- `host.strip("[]")`
abbrev is_bracket : ℕ → Bool
is_bracket c = eqb c b'[' || eqb c b']'

valid_port : Text → Option ℕ → Result (Option (Text × ℕ))
valid_port host none = raised value_error
valid_port host (some port) =
    if ltb 0 port && ltb port 65536 then ok (some (host, port)) else ok none

-- `ok none` is `(None, None)`.
unfoldable pub split_authority : Text → Result (Option (Text × ℕ))
unfolding valid_port rpartition strip_where int_of_digits
split_authority authority =
    let p = rpartition b':' authority in
    let host = strip_where is_bracket p.before in
    if not p.found || is_empty host || not (is_digit p.after)
    then ok none
    else valid_port host (int_of_digits p.after)

abbrev pub refused_header : Text
refused_header = codes "x-alexclaw-egress"

-- The bytes that `_refuse` writes.
unfoldable pub refusal : ℕ → Text → Text
unfolding decimal
refusal status reason =
    codes "HTTP/1.1 "
    ++ (decimal status ++ (codes " " ++ (reason ++ (crlf ++ (marker ++ closing)))))
  where
    marker : Text
    marker = if eqb status 403 then refused_header ++ (codes ": refused" ++ crlf) else []

    closing : Text
    closing = codes "Content-Length: 0" ++ (crlf ++ (codes "Connection: close" ++ (crlf ++ crlf)))

abbrev pub connection_close : Text
connection_close = codes "Connection: close"

-- A head with these lines, the blank line included.
unfoldable pub head_of : List Text → Text
unfolding join
head_of ls = join crlf ls ++ (crlf ++ crlf)
