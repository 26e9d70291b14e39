-- ===== src/Http/Response/Redirect.antt =====
-- src/httpd.cpp: what `http_callback_404` sends.
use faster_config.Base.{
  ℕ, ◌+◌, ◌-◌, ◌≤◌, ◌<◌, Option, none, some, List, [], ◌∷◌, ◌++◌, append_assoc, Bytes, codes,
  IsByte, Bool, true, false, not, ◌||◌, ◌&&◌, ◌==◌, Bool-cases, lt→ltb, if◌then◌else◌, length, drop,
  field, take_all, All, Option-cases, ◌≡◌, refl, sym, ap, ◌∙◌, inl, inr, arith,
}
use faster_config.Iptable.{decimal}
use faster_config.Http.Vars.{Var, add_variable}
use faster_config.Http.Query.{c_string}
use faster_config.Http.Page.{output}
use faster_config.Http.Escape.{acceptable, hex, escape_byte, escape, url_encode}
use faster_config.Http.Escape.RoundTrip.{holds_below, holds_below_at, map-escape}
use faster_config.Http.Arp.{arp_get}
use faster_config.Http.Request.{Request}
use faster_config.Http.Request.Text.{all, all-append}
use faster_config.Http.Response.{
  Response, System, Settings, server_header, standard_response, add_header, with_header,
  ends_in_newline, set_response, send_headers, header_text, length_lines, http_output,
  send_http_page, set_variable, link_to, http_send_redirect, http_callback_404, login_url,
  original_url, mac_parameter,
}

ends_in_newline-append :
    (s : Bytes) (c : ℕ) (t : Bytes) → ends_in_newline (s ++ c ∷ t) ≡ ends_in_newline (c ∷ t)
ends_in_newline-append [] c t = refl
ends_in_newline-append (a ∷ []) c t = refl
ends_in_newline-append (a ∷ b ∷ s) c t = ends_in_newline-append (b ∷ s) c t

abbrev not_newline : ℕ → Bool
not_newline c = not (c == b'\n')

ends_in_newline-none :
    (c : ℕ) (s : Bytes) → all not_newline (c ∷ s) ≡ true → ends_in_newline (c ∷ s) ≡ false
unfolding all
ends_in_newline-none c [] h = ground (arith, h)
ends_in_newline-none c (d ∷ s) h = ends_in_newline-none d s (ground (arith, h))

-- What a page is filled with.
abbrev pub page_variables : List Var → Bytes → Bytes → List Var
page_variables vars title message =
    add_variable
      (add_variable (add_variable vars (codes "title") (some title)) (codes "message")
        (some message))
      (codes "nodeID") (some (codes "123"))

-- The headers of a redirection to `url` with a page of `n` bytes.
abbrev pub redirect_headers : System → Bytes → ℕ → Bytes
redirect_headers sys url n =
    codes "HTTP/1.0 302 Redirect to login page\n"
    ++ (server_header
        ++ (codes "Location: "
            ++ (url
                ++ (codes "\nDate: "
                    ++ (sys.time_string 0
                        ++ (codes "\nConnection: close\nContent-Type: text/html\n"
                            ++ (length_lines sys n 0 ++ b'\n' ∷ [])))))))

-- A header that fits whole, and has no newline of its own.
add_header-whole :
    (msg : Bytes) (r : Response)
    → length r.headers + length msg ≤ 1022
    → 0 < length msg
    → ends_in_newline (r.headers ++ msg) ≡ false
    → add_header msg r ≡ record r { headers = r.headers ++ msg ++ b'\n' ∷ [] }
unfolding add_header
add_header-whole msg r len positive line =
    let room = lt→ltb 0 (1022 - length r.headers) (omega (arith, len, positive)) in
    let whole = take_all (1022 - length r.headers) msg (omega (arith, len)) in
    rw room (
      ap (λ t. record r { headers = with_header (r.headers ++ t) }) whole
      ∙ ap
          (λ b. record r {
            headers = if b then r.headers ++ msg else r.headers ++ msg ++ b'\n' ∷ [];
          })
          line)

not_newline_table :
    holds_below 256 (λ c.
      (not (acceptable c) || not_newline c)
      && not_newline (hex (field c 4 4))
      && not_newline (hex (field c 0 4)))
    ≡ true
unfolding holds_below acceptable hex
not_newline_table = refl

escape_byte-not_newline : (c : ℕ) → c < 256 → all not_newline (escape_byte c) ≡ true
unfolding escape_byte all
escape_byte-not_newline c h =
    let ok = holds_below_at 256 _ c not_newline_table h in
    elim (Bool-cases (acceptable c)) [
      | inl e ↦ rw e (ground (arith, ok))
      | inr e ↦ rw e (ground (arith, ok))
    ]

escape-not_newline : (s : Bytes) → All IsByte s → all not_newline (escape s) ≡ true
unfolding escape all
escape-not_newline [] h = refl
escape-not_newline (c ∷ s) (hc, hs) =
    all-append not_newline (escape_byte c) (escape s) (escape_byte-not_newline c hc)
      (escape-not_newline s hs)

url_encode-not_newline : (s : Bytes) → All IsByte s → all not_newline (url_encode s) ≡ true
unfolding url_encode
url_encode-not_newline s h = rw (map-escape s h) (escape-not_newline s h)

-- The location ends in the URL that was asked for, so it has no newline at its end.
location-line :
    (sys : System) (set : Settings) (client_addr : Bytes) (q : Request)
    → All IsByte (original_url q)
    → ends_in_newline (server_header ++ (codes "Location: " ++ login_url sys set client_addr q))
      ≡ false
unfolding login_url all
location-line sys set client_addr q h =
    let asked : Bytes = url_encode (original_url q) in
    let after_mac : Bytes = codes "&url=" ++ asked in
    let mac : Bytes = mac_parameter (arp_get sys.proc_net_arp client_addr) in
    let after_ip : Bytes = codes "&ip=" ++ (client_addr ++ (mac ++ after_mac)) in
    let after_port : Bytes = codes "&gw_port=" ++ (decimal set.gw_port ++ after_ip) in
    let after_url : Bytes = codes "/?gw_address=" ++ (set.gw_address ++ after_port) in
    let last : ends_in_newline after_mac ≡ false =
      ends_in_newline-none b'&' (codes "url=" ++ asked)
        (url_encode-not_newline (original_url q) h) in
    ends_in_newline-append (b' ' ∷ set.re_url) b'/' (drop 1 after_url)
    ∙ ends_in_newline-append (b'=' ∷ set.gw_address) b'&' (drop 1 after_port)
    ∙ ends_in_newline-append (b'=' ∷ decimal set.gw_port) b'&' (drop 1 after_ip)
    ∙ ap ends_in_newline (sym (append_assoc (b'=' ∷ client_addr) mac after_mac))
    ∙ ends_in_newline-append (b'=' ∷ client_addr ++ mac) b'&' (drop 1 after_mac)
    ∙ last

-- A response of which nothing has been sent.
abbrev unsent : Response → Response
unsent r = record r { response_length = 0; headers_sent = false; sent = [] }

-- What has been sent with a page.
abbrev pub bytes_sent : Option Response → Option Bytes
bytes_sent none = none
bytes_sent (some r) = some r.sent

abbrev pub with_headers : (ℕ → Bytes) → Option Bytes → Option Bytes
with_headers head none = none
with_headers head (some text) = some (head (length text) ++ text)

with_headers-agree :
    (f g : ℕ → Bytes) (o : Option Bytes)
    → ((n : ℕ) → f n ≡ g n)
    → with_headers f o ≡ with_headers g o
with_headers-agree f g none h = refl
with_headers-agree f g (some text) h = ap (λ head. some (head ++ text)) (h (length text))

http_output-unsent :
    (sys : System) (msg : Bytes) (r : Response)
    → bytes_sent (http_output sys msg (unsent r))
      ≡ with_headers (λ n. header_text sys n 0 r) (output r.request.variables msg)
unfolding http_output send_headers header_text
http_output-unsent sys msg r = elim (Option-cases (output r.request.variables msg)) [
  | inl e ↦ rw (http_output, e)
  | inr (text, e) ↦
      rw (http_output, e)
        (ap (λ n. some (header_text sys n 0 r ++ text))
          (let k : 0 + length text ≡ length text = omega arith in k))
]

-- The response that the redirection to `url` has set up.
abbrev redirected : Bytes → Request → Bytes → Response
redirected client_addr q url = record (standard_response client_addr q) {
  response = codes "302 Redirect to login page\n";
  headers = server_header ++ (codes "Location: " ++ url) ++ b'\n' ∷ [];
}

header_text-redirected :
    (sys : System) (client_addr : Bytes) (q : Request) (url : Bytes) (n : ℕ)
    → header_text sys n 0 (redirected client_addr q url) ≡ redirect_headers sys url n
unfolding header_text
header_text-redirected sys client_addr q url n =
    let rest : Bytes =
      drop 1 (codes "\nDate: ")
      ++ (sys.time_string 0
          ++ (codes "\nConnection: close\nContent-Type: text/html\n"
              ++ (length_lines sys n 0 ++ b'\n' ∷ []))) in
    ap
      (λ t.
        codes "HTTP/1.0 302 Redirect to login page\n"
        ++ (server_header ++ (codes "Location: " ++ t)))
      (append_assoc url (b'\n' ∷ []) rest)

abbrev pub title : Bytes
title = codes "Redirect to login page"

send_http_page-redirected :
    (sys : System) (set : Settings) (client_addr : Bytes) (q : Request) (url page : Bytes)
    (time : ℕ)
    → sys.file set.html_path ≡ some (page, time)
    → bytes_sent (send_http_page sys set title (link_to url) (redirected client_addr q url))
      ≡ with_headers
          (redirect_headers sys url)
          (output (page_variables q.variables title (link_to url)) (c_string page))
unfolding send_http_page
send_http_page-redirected sys set client_addr q url page time found =
    let filled : Response = set_variable (codes "nodeID") (codes "123") (
      set_variable (codes "message") (link_to url)
        (set_variable (codes "title") title (redirected client_addr q url))) in
    rw (send_http_page, found)
      (http_output-unsent sys (c_string page) filled
        ∙ with_headers-agree (λ n. header_text sys n 0 filled) (redirect_headers sys url)
            (output filled.request.variables (c_string page))
            (header_text-redirected sys client_addr q url))

-- What `http_callback_404` sends: the status and the headers of a redirection to the login page, with
-- the address asked for in its last parameter, and the page of the file that says so. The location
-- has at most 969 bytes, and the file can be read.
pub http_callback_404-sent :
    (sys : System) (set : Settings) (client_addr : Bytes) (q : Request) (page : Bytes) (time : ℕ)
    → sys.file set.html_path ≡ some (page, time)
    → All IsByte (original_url q)
    → length (login_url sys set client_addr q) ≤ 969
    → bytes_sent (http_callback_404 sys set (standard_response client_addr q))
      ≡ with_headers (redirect_headers sys (login_url sys set client_addr q)) (
          output
            (page_variables q.variables title (link_to (login_url sys set client_addr q)))
            (c_string page))
unfolding http_callback_404 http_send_redirect
http_callback_404-sent sys set client_addr q page time found bytes len =
    let url : Bytes = login_url sys set client_addr q in
    let status : Bytes = codes "302 Redirect to login page\n" in
    let whole =
      add_header-whole (codes "Location: " ++ url)
        (set_response status (standard_response client_addr q)) (omega (arith, len)) (omega arith)
        (location-line sys set client_addr q bytes) in
    ap (λ r. bytes_sent (send_http_page sys set title (link_to url) r)) whole
    ∙ send_http_page-redirected sys set client_addr q url page time found
