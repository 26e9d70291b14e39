-- ===== src/Http/Request/Sent.antt =====
-- src/httpd.cpp: a well-formed request, its text, and the lines that are read from it.
use faster_config.Base.{
  ◌≤◌, ◌<◌, List, [], ◌∷◌, ◌++◌, Bytes, codes, IsByte, true, not, ◌&&◌, ◌==◌, length, All,
  length-append, ◌≡◌, refl, ap, ◌∙◌, ◌≢◌, arith,
}
use faster_config.Http.Url.{sanitise_url}
use faster_config.Http.Query.Pairs.{query_of, add_all, IsPair}
use faster_config.Http.Decode.Groups.{encode}
use faster_config.Http.Request.{Method, unset, http_get, http_post, request_method_name, Request}
use faster_config.Http.Request.Lines.{line_list}
use faster_config.Http.Request.Text.{
  all, all-append, all-implies, in_line, lines_from-line, all-encode, length-encode,
}
use faster_config.Http.Request.Headers.{in_word}

-- What a browser sends: the target is a path that begins with a slash, and a query of pairs.
pub record Sent : Type 0 where
  pub method : Method
  pub path : Bytes
  pub pairs : List (Bytes × Bytes)
  pub host : Bytes
  pub user : Bytes
  pub password : Bytes

abbrev pub target : Sent → Bytes
target s = b'/' ∷ (s.path ++ b'?' ∷ query_of s.pairs)

abbrev pub auth_text : Sent → Bytes
auth_text s = s.user ++ b':' ∷ s.password

abbrev pub ended : Bytes → Bytes → Bytes
ended line rest = line ++ b'\r' ∷ b'\n' ∷ rest

abbrev pub request_line : Sent → Bytes
request_line s = request_method_name s.method ++ b' ' ∷ (target s ++ codes " HTTP/1.0")

-- The text of the request, and what follows it.
abbrev pub request_text : Sent → Bytes → Bytes
request_text s rest = ended (request_line s) (
    ended (codes "Host: " ++ s.host)
      (ended (codes "Authorization: Basic " ++ encode (auth_text s)) (ended [] rest)))

pub record IsSent (s : Sent) : Type 0 where
  pub known : s.method ≢ unset
  pub words : all in_word (target s) ≡ true
  pub short : length (target s) ≤ 1023
  pub clean : sanitise_url (target s) ≡ target s
  pub no_mark : all (λ c. not (c == b'?')) s.path ≡ true
  pub named : All IsPair s.pairs
  pub host_line : all (λ c. in_line c && not (c == 0)) s.host ≡ true
  pub host_short : length s.host ≤ 1023
  pub no_colon : all (λ c. not (c == b':')) s.user ≡ true
  pub auth_bytes : All IsByte (auth_text s)
  pub auth_nonzero : All (λ c. c ≢ 0) (auth_text s)
  pub auth_short : length (auth_text s) < 100

-- The request that is meant.
abbrev pub meant : Sent → Request
meant s = record {
  method = s.method;
  auth_length = length (auth_text s);
  path = b'/' ∷ s.path;
  query = query_of s.pairs;
  host = s.host;
  auth_user = s.user;
  auth_password = s.password;
  variables = add_all [] s.pairs;
}

line-line :
    (s t : Bytes)
    → all in_line s ≡ true
    → length s ≤ 10239
    → line_list (ended s t) ≡ s ∷ line_list t
line-line s t h len = lines_from-line 10239 10239 [] s t h len

all-method : (m : Method) → all in_line (request_method_name m) ≡ true
unfolding all
all-method http_get = refl
all-method http_post = refl
all-method unset = refl

length-method : (m : Method) → length (request_method_name m) ≤ 7
length-method http_get = omega arith
length-method http_post = omega arith
length-method unset = omega arith

pub request_line-line :
    (s : Sent)
    → IsSent s
    → (all in_line (request_line s) ≡ true) × (length (request_line s) ≤ 10239)
unfolding all
request_line-line s h =
    let word = all-implies in_word in_line (target s) (λ c hc. ground (arith, hc)) h.words in
    let behind = all-append in_line (target s) (codes " HTTP/1.0") word refl in
    let name = all-method s.method in
    let len =
      length-append (request_method_name s.method) (b' ' ∷ (target s ++ codes " HTTP/1.0")) in
    let more_len = length-append (target s) (codes " HTTP/1.0") in
    let few = length-method s.method in
    let short = h.short in
    (
      all-append in_line (request_method_name s.method) (b' ' ∷ (target s ++ codes " HTTP/1.0"))
          name behind,
      omega (arith, len, more_len, few, short),
    )

pub request_text-line_list :
    (s : Sent) (rest : Bytes)
    → IsSent s
    → line_list (request_text s rest)
      ≡ request_line s
        ∷ (codes "Host: " ++ s.host)
        ∷ (codes "Authorization: Basic " ++ encode (auth_text s))
        ∷ []
        ∷ line_list rest
unfolding all
request_text-line_list s rest h =
    let (first, first_len) = request_line-line s h in
    let host = all-implies _ in_line s.host (λ c hc. ground (arith, hc)) h.host_line in
    let auth = all-encode (auth_text s) h.auth_bytes in
    let auth_len = length-encode (auth_text s) in
    let fourth = line-line [] rest refl (omega arith) in
    let third =
      line-line (codes "Authorization: Basic " ++ encode (auth_text s)) (ended [] rest) auth
        (let short = h.auth_short in omega (arith, short, auth_len)) in
    let second =
      line-line (codes "Host: " ++ s.host) _ host
        (let short = h.host_short in omega (arith, short)) in
    line-line (request_line s) _ first first_len
    ∙ ap (λ ls. request_line s ∷ ls)
        (second
          ∙ ap (λ ls. (codes "Host: " ++ s.host) ∷ ls)
              (third
                ∙ ap (λ ls. (codes "Authorization: Basic " ++ encode (auth_text s)) ∷ ls) fourth))
