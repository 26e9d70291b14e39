-- ===== src/Http/Request.antt =====
-- src/httpd.h and src/httpd.cpp: `httpdReadRequest`. `buf` is the whole array, with what earlier lines
-- have left in it; a line of 10240 characters has its terminator written behind the array, which is an
-- `overrun`.
pub mod Lines
pub mod Text
pub mod Headers
pub mod Sent
pub mod RoundTrip
use faster_config.Base.{
  ℕ, zero, suc, ◌+◌, ◌-◌, Option, none, some, List, [], ◌∷◌, ◌++◌, map, Bytes, codes, str_eq, Bool,
  true, false, not, ◌&&◌, ◌||◌, ◌==◌, ltb, leb, if◌then◌else◌, length, take, drop, memcpy,
}
use faster_config.Http.Url.{starts_with, sanitise_url}
use faster_config.Http.Acl.{after}
use faster_config.Http.Vars.{Var}
use faster_config.Http.Query.{c_string, store_data}
use faster_config.Http.Content.{http_max_url}
use faster_config.Http.Page.{http_max_len}
use faster_config.Http.Reader.{Reader, stream, read_line}
use faster_config.Http.Decode.{decode}

-- `method`, which is 0 in a request that has been allocated.
pub data Method : Type 0 where
  unset http_get http_post : Method

-- `httpdRequestMethodName`.
abbrev pub request_method_name : Method → Bytes
request_method_name http_get = codes "GET"
request_method_name http_post = codes "POST"
request_method_name unset = codes "INVALID"

-- `httpReq`, without what is never written, and the variables of the request.
pub record Request : Type 0 where
  pub method : Method
  pub auth_length : ℕ
  pub path : Bytes
  pub query : Bytes
  pub host : Bytes
  pub auth_user : Bytes
  pub auth_password : Bytes
  pub variables : List Var

-- What `memset` leaves.
abbrev pub new_request : Request
new_request = record {
  method = unset;
  auth_length = 0;
  path = [];
  query = [];
  host = [];
  auth_user = [];
  auth_password = [];
  variables = [];
}

-- What reading a request comes to: the result 0, the result -1 with what is then written to the
-- client, or a write behind the array of `_httpd_decode` or of a line.
pub data Reading : Type 0 where
  accepted : Request → Reading
  refused : Bytes → Reading
  overrun : Reading

-- The loops over characters: what they pass over, and what is left.
unfoldable pub span : (ℕ → Bool) → Bytes → Bytes × Bytes
span p [] = ([], [])
span p (c ∷ s) = let (before, rest) = span p s in if p c then (c ∷ before, rest) else ([], c ∷ s)

abbrev pub is_upper : ℕ → Bool
is_upper c = leb b'A' c && leb c b'Z'

-- `isalpha`.
abbrev pub is_alpha : ℕ → Bool
is_alpha c = is_upper c || (leb b'a' c && leb c b'z')

abbrev pub lower : ℕ → ℕ
lower c = if is_upper c then c + 32 else c

-- `strncasecmp(s, prefix, n) == 0` for the n characters of a literal.
unfoldable pub starts_nocase : Bytes → Bytes → Bool
starts_nocase [] s = true
starts_nocase (p ∷ ps) [] = false
starts_nocase (p ∷ ps) (c ∷ s) = lower p == lower c && starts_nocase ps s

-- `strcasecmp(s, t) == 0`.
unfoldable pub eq_nocase : Bytes → Bytes → Bool
eq_nocase s t = str_eq (map lower s) (map lower t)

abbrev pub http_max_auth : ℕ
http_max_auth = 128

abbrev pub http_method_error : Bytes
http_method_error = codes "\n<B>ERROR : Method Not Implemented</B>\n\n"

abbrev method_of : Method → Bytes → Method
method_of m s =
    if eq_nocase s (codes "POST")
    then http_post
    else if eq_nocase s (codes "GET")
    then http_get
    else m

-- The request line, read from the array.
unfoldable pub first_line : Bytes → Request → Reading
unfolding span eq_nocase
first_line buf q =
    let (name, behind) = span is_alpha buf in
    let text : Bytes = (span (λ c. c == b' ') (drop 1 behind)).1 in
    let target : Bytes = (span (λ c. not (c == b' ') && not (c == 0)) text).0 in
    elim (method_of q.method name) [
      | unset ↦ refused (http_method_error ++ name)
      | m ↦ accepted (record q { method = m; path = sanitise_url (take (http_max_url - 1) target) })
    ]

-- The text before the colon that `after` finds.
abbrev before_colon : Bytes → Bytes
before_colon s = (span (λ c. not (c == b':')) s).0

-- `authBuf` split at its first colon, and copied.
unfoldable pub set_auth : Bytes → Request → Request
unfolding span
set_auth auth q =
    let password : Bytes = elim (after b':' auth) [
      | none ↦ q.auth_password
      | some cp ↦ take (http_max_auth - 1) cp
    ] in
    record q {
      auth_length = length auth;
      auth_password = password;
      auth_user = take (http_max_auth - 1) (before_colon auth);
    }

-- The value of an Authorization header, from `cp` on; `none` is a write behind `authBuf`.
unfoldable pub authorise : Bytes → Request → Option Request
unfolding starts_with set_auth
authorise cp q =
    if starts_with (codes "Basic ") cp
    then elim (after b' ' cp) [
      | none ↦ some q
      | some coded ↦ elim (decode coded 100) [ none ↦ none | some auth ↦ some (set_auth auth q) ]
    ]
    else some q

unfoldable pub set_host : Bytes → Request → Request
set_host buf q =
    if starts_nocase (codes "Host: ") buf
    then elim (after b':' (c_string buf)) [
      | none ↦ q
      | some cp ↦ record q { host = take (http_max_url - 1) (drop 1 cp) }
    ]
    else q

-- One header that is not empty. Each prefix that is tested ends in what `strchr` then looks for.
unfoldable pub header : Bytes → Request → Option Request
unfolding starts_nocase authorise set_host
header buf q =
    let authorised : Option Request =
      if starts_nocase (codes "Authorization: ") buf
      then elim (after b':' buf) [ none ↦ some q | some cp ↦ authorise (drop 1 cp) q ]
      else some q in
    elim authorised [ none ↦ none | some q' ↦ some (set_host buf q') ]

-- Behind the loop: the query is cut off the path and its variables are stored.
unfoldable pub take_query : Request → Request
unfolding span store_data
take_query q = elim (after b'?' q.path) [
  | none ↦ q
  | some cp ↦ record q {
    path = (span (λ c. not (c == b'?')) q.path).0;
    query = take (http_max_url - 1) cp;
    variables = store_data q.variables (some cp);
  }
]

abbrev pub is_blank_line : Bytes → Bool
is_blank_line [] = true
is_blank_line (c ∷ s) = c == 0

-- What `_httpd_readLine` leaves in the array.
abbrev pub written : Bytes → Bytes → Bytes
written buf line = memcpy buf 0 (line ++ 0 ∷ [])

-- What a line behind the first one leads to.
pub data Next : Type 0 where
  finished failed : Next
  more : Request → Next

unfoldable pub next_header : Bytes → Request → Next
unfolding header
next_header buf q =
    if is_blank_line buf
    then finished
    else elim (header buf q) [ none ↦ failed | some q' ↦ more q' ]

-- Whether the terminator of a line that was read lies in the array.
abbrev pub fits : Bytes → Bool
fits line = ltb (length line) http_max_len

-- A line as it is read into the array: the first one, and one behind it.
unfoldable pub take_first : Bytes → Bytes → Request → Reading
unfolding first_line
take_first buf line q =
    let read = first_line (written buf line) q in if fits line then read else overrun

unfoldable pub take_header : Bytes → Bytes → Request → Next
unfolding next_header
take_header buf line q =
    let read = next_header (written buf line) q in if fits line then read else failed

-- The rounds of the loop behind the first; `none` is fuel that ran out.
unfoldable pub header_loop : ℕ → Bytes → Request → Reader → Option Reading
unfolding take_header take_query
header_loop zero buf q r = none
header_loop (suc fuel) buf q r = elim (read_line http_max_len r) [
  | none ↦ some (accepted (take_query q))
  | some (line, r') ↦ elim (take_header buf line q) [
    | finished ↦ some (accepted (take_query q))
    | failed ↦ some overrun
    | more q' ↦ header_loop fuel (written buf line) q' r'
  ]
]

-- `httpdReadRequest`, with the array as it is found.
unfoldable pub read_request : Bytes → Request → Reader → Option Reading
unfolding take_first header_loop
read_request buf q r = elim (read_line http_max_len r) [
  | none ↦ some (accepted (take_query q))
  | some (line, r') ↦ elim (take_first buf line q) [
    | accepted q' ↦ header_loop (length (stream r') + 1) (written buf line) q' r'
    | other ↦ some other
  ]
]
