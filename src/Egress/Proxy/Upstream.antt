-- ===== src/Egress/Proxy/Upstream.antt =====
-- What the server reads of a head that the proxy rewrote.
use alex_claw.Prelude.{
  ◌≤◌, ◌≡◌, refl, ap, Bool, not, List, [], ◌∷◌, ◌++◌, All, All-append, keep, contains, length,
  arith, Bool-cases, inl, inr,
}
use alex_claw.Text.{Text, text_eq, join}
use alex_claw.Egress.Run.{ok}
use alex_claw.Egress.Wire.{
  crlf, max_head, read_head, lines, hop_by_hop, header_name, end_to_end, connection_close,
}
use alex_claw.Egress.Wire.Heads.{IsLine, read_head-head_of}
use alex_claw.Egress.Proxy.{request_head}

-- A header that concerns one connection only.
abbrev pub is_hop : Text → Bool
is_hop h = contains hop_by_hop (header_name h)

abbrev pub request_line : Text → Text → Text → Text
request_line method path version = join (32 ∷ []) (method ∷ path ∷ version ∷ [])

-- The lines that go upstream.
abbrev pub sent_lines : Text → List Text → List Text
sent_lines line headers = line ∷ (end_to_end headers ++ connection_close ∷ [])

end_to_end-All : (P : Text → Type 0) (hs : List Text) → All P hs → All P (end_to_end hs)
unfolding end_to_end
end_to_end-All P [] h = tt
end_to_end-All P (x ∷ hs) (p, h) = elim (Bool-cases (is_hop x)) [
  | inl hop ↦ rw hop (end_to_end-All P hs h)
  | inr kept ↦ rw kept (p, end_to_end-All P hs h)
]

one_hop :
    (hs : List Text) → keep is_hop (end_to_end hs ++ connection_close ∷ []) ≡ connection_close ∷ []
unfolding end_to_end header_name text_eq
one_hop [] = refl
one_hop (x ∷ hs) = elim (Bool-cases (is_hop x)) [
  | inl hop ↦ rw hop (one_hop hs)
  | inr kept ↦ rw kept (rw kept (one_hop hs))
]

others_kept :
    (hs : List Text)
    → keep (λ h. not (is_hop h)) (end_to_end hs ++ connection_close ∷ [])
      ≡ keep (λ h. not (is_hop h)) hs
unfolding end_to_end header_name text_eq
others_kept [] = refl
others_kept (x ∷ hs) = elim (Bool-cases (is_hop x)) [
  | inl hop ↦ rw hop (others_kept hs)
  | inr kept ↦ rw kept (rw kept (ap (λ l. x ∷ l) (others_kept hs)))
]

-- What the server reads of a rewritten head, when the lines of the client are not empty and have no
-- carriage return, and the head is not longer than the limit: its end is where the proxy put it; it
-- has the lines that the proxy wrote; the only header of one connection among them is "Connection:
-- close"; and all other headers are the client's, in their order.
pub request_head-lines :
    (method path version : Text) (headers : List Text) (rest : Text)
    → IsLine (request_line method path version)
    → All IsLine headers
    → length (join crlf (sent_lines (request_line method path version) headers)) ≤ max_head
    → let line = request_line method path version in
      let sent = end_to_end headers ++ connection_close ∷ [] in
      (read_head (request_head method path version (end_to_end headers) ++ rest)
        ≡ ok (join crlf (line ∷ sent), rest))
      × (lines (join crlf (line ∷ sent)) ≡ line ∷ sent)
      × (keep is_hop sent ≡ connection_close ∷ [])
      × (keep (λ h. not (is_hop h)) sent ≡ keep (λ h. not (is_hop h)) headers)
unfolding request_head
request_head-lines method path version headers rest line all_lines short =
    let closing : IsLine connection_close = ground arith in
    let all_sent =
      All-append IsLine (end_to_end headers) (connection_close ∷ [])
        (end_to_end-All IsLine headers all_lines) (closing, tt) in
    let (reads, splits) =
      read_head-head_of (sent_lines (request_line method path version) headers) rest (λ e. cc)
        (line, all_sent) short in
    (reads, splits, one_hop headers, others_kept headers)
