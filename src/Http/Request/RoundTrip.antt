-- ===== src/Http/Request/RoundTrip.antt =====
-- src/httpd.cpp: a request that a browser sends is read as it was meant.
use faster_config.Base.{
  lt→ltb, ◌<◌, some, List, [], ◌∷◌, ◌++◌, append_assoc, Bytes, codes, true, not, ◌==◌, length, take,
  drop, take_all, length-append, length-memcpy, ◌≡◌, refl, ap, ◌∙◌, arith,
}
use faster_config.Http.Query.{store_data}
use faster_config.Http.Query.Pairs.{query_of, store_data-query_of}
use faster_config.Http.Decode.Groups.{encode}
use faster_config.Http.Reader.{Reader, stream}
use faster_config.Http.Request.{
  request_method_name, Request, new_request, accepted, first_line, take_first, take_query, written,
  next_header, take_header, finished, more, read_request,
}
use faster_config.Http.Request.Lines.{headers_of, request_of, line_list, read_request-line_list}
use faster_config.Http.Request.Text.{
  all, all-implies, span-append, after-append, written-line, length-encode,
}
use faster_config.Http.Request.Headers.{
  first_line-target, next_header-host, next_header-auth, next_header-blank,
}
use faster_config.Http.Request.Sent.{
  Sent, IsSent, target, auth_text, request_line, request_text, meant, request_line-line,
  request_text-line_list,
}

take_first-fits :
    (buf line : Bytes) (q : Request)
    → length line < 10240
    → take_first buf line q ≡ first_line (written buf line) q
unfolding take_first
take_first-fits buf line q h = let room = lt→ltb _ _ h in rw (take_first, room) refl

take_header-fits :
    (buf line : Bytes) (q : Request)
    → length line < 10240
    → take_header buf line q ≡ next_header (written buf line) q
unfolding take_header
take_header-fits buf line q h = let room = lt→ltb _ _ h in rw (take_header, room) refl

first_line-written :
    (buf : Bytes) (s : Sent)
    → IsSent s
    → length buf ≡ 10240
    → take_first buf (request_line s) new_request
      ≡ accepted (record new_request { method = s.method; path = target s })
first_line-written buf s h len =
    let (line, fits) = request_line-line s h in
    let (stale, e, same) = written-line buf (request_line s) (omega (arith, fits, len)) in
    let t : Bytes = s.path ++ b'?' ∷ query_of s.pairs in
    let name : Bytes = request_method_name s.method in
    let outer = append_assoc name (b' ' ∷ (target s ++ codes " HTTP/1.0")) (0 ∷ stale) in
    let inner = append_assoc t (codes " HTTP/1.0") (0 ∷ stale) in
    let whole = e ∙ outer ∙ ap (λ u. name ++ b' ' ∷ b'/' ∷ u) inner in
    let short = h.short in
    take_first-fits buf (request_line s) new_request (omega (arith, fits))
    ∙ ap (λ b. first_line b new_request) whole
    ∙ first_line-target s.method t (drop 1 (codes " HTTP/1.0") ++ 0 ∷ stale) new_request h.known
        h.words (omega (arith, short))
    ∙ ap (λ p. accepted (record new_request { method = s.method; path = p })) h.clean

host-written :
    (buf : Bytes) (s : Sent) (q : Request)
    → IsSent s
    → length buf ≡ 10240
    → take_header buf (codes "Host: " ++ s.host) q ≡ more (record q { host = s.host })
host-written buf s q h len =
    let fits = h.host_short in
    let (stale, e, same) = written-line buf (codes "Host: " ++ s.host) (omega (arith, fits, len)) in
    let nonzero =
      all-implies _ (λ c. not (c == 0)) s.host (λ c hc. ground (arith, hc)) h.host_line in
    take_header-fits buf (codes "Host: " ++ s.host) q (omega (arith, fits))
    ∙ ap (λ b. next_header b q) e
    ∙ next_header-host s.host stale q nonzero fits

auth-written :
    (buf : Bytes) (s : Sent) (q : Request)
    → IsSent s
    → length buf ≡ 10240
    → take_header buf (codes "Authorization: Basic " ++ encode (auth_text s)) q
      ≡ more (record q {
        auth_length = length (auth_text s);
        auth_user = s.user;
        auth_password = s.password;
      })
auth-written buf s q h len =
    let short = h.auth_short in
    let auth_len = length-encode (auth_text s) in
    let (stale, e, same) =
      written-line buf (codes "Authorization: Basic " ++ encode (auth_text s))
        (omega (arith, short, auth_len, len)) in
    take_header-fits buf (codes "Authorization: Basic " ++ encode (auth_text s)) q
      (omega (arith, short, auth_len))
    ∙ ap (λ b. next_header b q) e
    ∙ next_header-auth s.user s.password stale q h.no_colon h.auth_bytes h.auth_nonzero short

blank-written : (buf : Bytes) (q : Request) → length buf ≡ 10240 → take_header buf [] q ≡ finished
blank-written buf q len =
    let (stale, e, same) = written-line buf [] (omega (arith, len)) in
    take_header-fits buf [] q (omega arith)
    ∙ ap (λ b. next_header b q) e
    ∙ next_header-blank stale q

-- The request behind its headers.
abbrev gathered : Sent → Request
gathered s = record (meant s) { path = target s; query = []; variables = [] }

take_query-gathered : (s : Sent) → IsSent s → take_query (gathered s) ≡ meant s
unfolding take_query
take_query-gathered s h =
    let query : Bytes = query_of s.pairs in
    let mark : all (λ c. not (c == b'?')) (b'/' ∷ s.path) ≡ true = unfold all in h.no_mark in
    let behind = after-append b'?' (b'/' ∷ s.path) query mark in
    let parts = span-append (λ c. not (c == b'?')) (b'/' ∷ s.path) b'?' query mark refl in
    let stored = store_data-query_of [] s.pairs h.named in
    let long = length-append s.path (b'?' ∷ query) in
    let short = h.short in
    let whole = take_all 1023 query (omega (arith, long, short)) in
    rw (take_query, behind)
      (ap
          (λ t. record (meant s) {
            path = t.0;
            query = take 1023 query;
            variables = store_data [] (some query);
          })
          parts
        ∙ ap (λ t. record (meant s) { query = t; variables = store_data [] (some query) }) whole
        ∙ ap (λ v. record (meant s) { variables = v }) stored)

request_of-text :
    (buf : Bytes) (s : Sent) (rest : List Bytes)
    → IsSent s
    → length buf ≡ 10240
    → request_of buf new_request (
        request_line s
        ∷ (codes "Host: " ++ s.host)
        ∷ (codes "Authorization: Basic " ++ encode (auth_text s))
        ∷ []
        ∷ rest)
      ≡ accepted (meant s)
request_of-text buf s rest h len =
    let b1 : Bytes = written buf (request_line s) in
    let l1 : length b1 ≡ 10240 = length-memcpy buf 0 (request_line s ++ 0 ∷ []) ∙ len in
    let b2 : Bytes = written b1 (codes "Host: " ++ s.host) in
    let l2 : length b2 ≡ 10240 = length-memcpy b1 0 (codes "Host: " ++ s.host ++ 0 ∷ []) ∙ l1 in
    let b3 : Bytes = written b2 (codes "Authorization: Basic " ++ encode (auth_text s)) in
    let l3 : length b3 ≡ 10240 =
      length-memcpy b2 0 (codes "Authorization: Basic " ++ encode (auth_text s) ++ 0 ∷ []) ∙ l2 in
    let q1 : Request = record new_request { method = s.method; path = target s } in
    let q2 : Request = record q1 { host = s.host } in
    let first = first_line-written buf s h len in
    let second = host-written b1 s q1 h l1 in
    let third = auth-written b2 s q2 h l2 in
    let fourth = blank-written b3 (gathered s) l3 in
    rw (request_of, first)
      (rw (headers_of, second)
        (rw (headers_of, third) (rw (headers_of, fourth) (ap accepted (take_query-gathered s h)))))

-- A request as a browser sends it is read back whole, however the connection cuts it into reads and
-- whatever follows it: the method, the path without its query, the host, the user with the password,
-- and the variables of the query. The conditions on what is sent are those of `IsSent`: words without
-- blanks, at most 1023 bytes of target and of host, fewer than 100 of user and password, a path
-- without '?' and a target that cleaning leaves alone.
pub read_request-request_text :
    (buf : Bytes) (s : Sent) (rest : Bytes) (r : Reader)
    → IsSent s
    → length buf ≡ 10240
    → stream r ≡ request_text s rest
    → read_request buf new_request r ≡ some (accepted (meant s))
read_request-request_text buf s rest r h len sent =
    read_request-line_list buf new_request r
    ∙ ap (λ t. some (request_of buf new_request (line_list t))) sent
    ∙ ap (λ ls. some (request_of buf new_request ls)) (request_text-line_list s rest h)
    ∙ ap some (request_of-text buf s (line_list rest) h len)
