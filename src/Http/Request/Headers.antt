-- ===== src/Http/Request/Headers.antt =====
-- src/httpd.cpp: what `httpdReadRequest` does with each line of a well-formed request.
use faster_config.Base.{
  ℕ, ◌≤◌, ◌<◌, none, some, ◌∷◌, ◌++◌, Bytes, codes, IsByte, str_eq, Bool, true, not, ◌&&◌, ◌==◌,
  if◌then◌else◌, length, take, All, take_all, length-append, lt→ltb, ◌≡◌, refl, ap, ◌∙◌, ◌≢◌, arith,
}
use faster_config.Http.Url.{sanitise_url, starts_with}
use faster_config.Http.Acl.{after}
use faster_config.Http.Query.{c_string}
use faster_config.Http.Decode.{decode}
use faster_config.Http.Decode.Groups.{encode}
use faster_config.Http.Decode.RoundTrip.{decode-encode}
use faster_config.Http.Request.{
  Method, unset, http_get, http_post, request_method_name, Request, accepted, span, eq_nocase,
  starts_nocase, first_line, set_auth, authorise, set_host, header, next_header, finished, more,
}
use faster_config.Http.Request.Text.{
  all, all-implies, in_line, span-append, after-append, c_string-ended,
}

-- A character of a word of the request line.
abbrev pub in_word : ℕ → Bool
in_word c = in_line c && not (c == b' ') && not (c == 0)

target-word :
    (target behind : Bytes)
    → all in_word target ≡ true
    → length target ≤ 1023
    → take 1023 (span (λ c. not (c == b' ') && not (c == 0)) (target ++ b' ' ∷ behind)).0 ≡ target
target-word target behind h len =
    let word =
      all-implies in_word (λ c. not (c == b' ') && not (c == 0)) target (λ c hc. ground (arith, hc))
        h in
    let parts = span-append (λ c. not (c == b' ') && not (c == 0)) target b' ' behind word refl in
    ap (λ t. take 1023 t.0) parts ∙ take_all 1023 target len

pub first_line-target :
    (m : Method) (target behind : Bytes) (q : Request)
    → m ≢ unset
    → all in_word (b'/' ∷ target) ≡ true
    → length target < 1023
    → first_line (request_method_name m ++ b' ' ∷ b'/' ∷ (target ++ b' ' ∷ behind)) q
      ≡ accepted (record q { method = m; path = sanitise_url (b'/' ∷ target) })
unfolding first_line span eq_nocase str_eq
first_line-target unset target behind q hm h len = absurd (hm refl)
first_line-target http_get target behind q hm h len =
    ap (λ t. accepted (record q { method = http_get; path = sanitise_url t }))
      (target-word (b'/' ∷ target) behind h (omega (arith, len)))
first_line-target http_post target behind q hm h len =
    ap (λ t. accepted (record q { method = http_post; path = sanitise_url t }))
      (target-word (b'/' ∷ target) behind h (omega (arith, len)))

-- The header that names the host.
pub next_header-host :
    (host stale : Bytes) (q : Request)
    → all (λ c. not (c == 0)) host ≡ true
    → length host ≤ 1023
    → next_header (codes "Host: " ++ (host ++ 0 ∷ stale)) q ≡ more (record q { host = host })
unfolding next_header header starts_nocase set_host c_string after
next_header-host host stale q h len =
    ap (λ t. more (record q { host = take 1023 t })) (c_string-ended host stale h)
    ∙ ap (λ t. more (record q { host = t })) (take_all 1023 host len)

set_auth-text :
    (user password : Bytes) (q : Request)
    → all (λ c. not (c == b':')) user ≡ true
    → length user ≤ 127
    → length password ≤ 127
    → set_auth (user ++ b':' ∷ password) q ≡ record q {
      auth_length = length (user ++ b':' ∷ password);
      auth_user = user;
      auth_password = password;
    }
unfolding set_auth
set_auth-text user password q h hu hp =
    let behind = after-append b':' user password h in
    let parts = span-append (λ c. not (c == b':')) user b':' password h refl in
    let first = ap (λ t. take 127 t.0) parts ∙ take_all 127 user hu in
    let text : Bytes = user ++ b':' ∷ password in
    rw behind (
      ap
        (λ u. record q {
          auth_length = length text;
          auth_user = u;
          auth_password = take 127 password;
        })
        first
      ∙ ap (λ p. record q { auth_length = length text; auth_user = user; auth_password = p })
          (take_all 127 password hp))

-- The header with the base64 of a user and a password.
pub next_header-auth :
    (user password stale : Bytes) (q : Request)
    → all (λ c. not (c == b':')) user ≡ true
    → All IsByte (user ++ b':' ∷ password)
    → All (λ c. c ≢ 0) (user ++ b':' ∷ password)
    → length (user ++ b':' ∷ password) < 100
    → next_header
        (codes "Authorization: Basic " ++ (encode (user ++ b':' ∷ password) ++ 0 ∷ stale))
        q
      ≡ more (record q {
        auth_length = length (user ++ b':' ∷ password);
        auth_user = user;
        auth_password = password;
      })
unfolding next_header header starts_nocase set_host c_string after authorise starts_with set_auth
next_header-auth user password stale q hu hb hz len =
    let text : Bytes = user ++ b':' ∷ password in
    let decoded = decode-encode text stale hb hz in
    let short = lt→ltb (length text) 100 len in
    let long = length-append user (b':' ∷ password) in
    let some_text : decode (encode text ++ 0 ∷ stale) 100 ≡ some text =
      decoded ∙ ap (λ b. if b then some text else none) short in
    let split =
      set_auth-text user password q hu (omega (arith, len, long)) (omega (arith, len, long)) in
    rw some_text (ap more split)

-- The blank line behind the headers.
pub next_header-blank : (stale : Bytes) (q : Request) → next_header (0 ∷ stale) q ≡ finished
unfolding next_header
next_header-blank stale q = refl
