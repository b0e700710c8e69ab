-- ===== src/Net/Headers/Request.antt =====
-- src/80s/lua_net.c: what the header parser makes of a request.
use s.Common.{
  ltb, Bool-cases, length, ℕ, ◌-◌, ◌≡◌, refl, ap, ap₂, ◌∙◌, inl, inr, ◌&&◌, List, [], ◌∷◌, ◌++◌,
  append-nil, arith,
}
use s.Net.Headers.{Reader, flush, parse_http_headers}
use s.Net.Headers.Fields.{trim}
use s.Net.Headers.Line.{StatusLine, IsPlain, line_before, status_entries, status_line_read}
use s.Net.Headers.Field.{
  Header, IsHeader, header_text, header_entry, key_of, value_of, HeaderRead, header_read,
}

flush_header :
    (h : Header) (table : List (List ℕ × List ℕ)) (r : Reader)
    → HeaderRead h table r
    → (flush r).table ≡ table ++ header_entry h
unfolding flush
flush_header h table r d =
    let long_key : ltb 0 (r.key.last - r.key.begin) ≡ ltb 1 (length (key_of h)) =
      ground (arith, d.key_long) in
    let long_value : ltb 0 (r.value.last - r.value.begin) ≡ ltb 1 (length (trim (value_of h))) =
      ground (arith, d.value_long) in
    let same : (ltb 0 (r.key.last - r.key.begin) && ltb 0 (r.value.last - r.value.begin))
        ≡ (ltb 1 (length (key_of h)) && ltb 1 (length (trim (value_of h)))) =
      ap₂ ◌&&◌ long_key long_value in
    elim (Bool-cases (ltb 1 (length (key_of h)) && ltb 1 (length (trim (value_of h))))) [
      | inl y ↦ rw (same, y) (ap₂ ◌++◌ d.entries (ap₂ (λ a b. (a, b) ∷ []) d.key_text d.value_text))
      | inr n ↦ rw (same, n, append-nil) d.entries
    ]

-- A request of a status line without further blanks, and of a header whose value begins with no
-- blank, colon or end of line: the parser returns the method, the script and the version, and one
-- entry for the header. Its key is in lower case, and its value is all that is left of the text,
-- further lines included, without the ends of lines at its end; a key or a value of a single byte
-- leaves no entry.
pub request_parsed :
    (l : StatusLine) (h : Header)
    → IsPlain l
    → IsHeader h
    → parse_http_headers (line_before l (header_text h)) ≡ status_entries l ++ header_entry h
unfolding parse_http_headers
request_parsed l h p q =
    let (before, r, s, splits, e1) =
      status_line_read l (header_text h) (line_before l (header_text h)) p refl in
    let (r', d, e2) = header_read h before r q s.state s.no_key (s.kept ∙ splits) in
    ap (λ x. (flush x).table) (e1 ∙ e2)
    ∙ (flush_header h r.table r' d ∙ ap (λ t. t ++ header_entry h) s.entries)
