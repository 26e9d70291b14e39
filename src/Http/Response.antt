-- ===== src/Http/Response.antt =====
-- src/httpd.h and src/httpd.cpp: the response of a request and the functions that write it. A write to
-- the socket is taken to write all it is given. `httpdOutput` stops the model where `Page` says it
-- writes outside its array: `none`.
pub mod Headers
pub mod Redirect
use faster_config.Base.{
  ℕ, zero, suc, ◌+◌, ◌-◌, Option, none, some, List, [], ◌∷◌, ◌++◌, Bytes, codes, str_eq, Bool, true,
  false, not, ◌==◌, ltb, if◌then◌else◌, length, take,
}
use faster_config.Iptable.{decimal}
use faster_config.Http.Vars.{Var, add_variable}
use faster_config.Http.Query.{c_string}
use faster_config.Http.Page.{output}
use faster_config.Http.Escape.{url_encode}
use faster_config.Http.Content.{http_max_url}
use faster_config.Http.Arp.{arp_get}
use faster_config.Http.Request.{Request, eq_nocase}

-- `httpRes` with the request it answers, the address of the client, and all that has been written to
-- the socket.
pub record Response : Type 0 where
  pub request : Request
  pub client_addr : Bytes
  pub response_length : ℕ
  pub headers_sent : Bool
  pub headers : Bytes
  pub response : Bytes
  pub content_type : Bytes
  pub sent : Bytes

abbrev pub http_max_headers : ℕ
http_max_headers = 1024

abbrev pub server_header : Bytes
server_header = codes "Server: Seeed Technologies Embedded Server\n"

-- What `httpdReadRequest` sets up, after `httpdGetConnection` has cleared the rest.
abbrev pub standard_response : Bytes → Request → Response
standard_response client_addr q = record {
  request = q;
  client_addr = client_addr;
  response_length = 0;
  headers_sent = false;
  headers = server_header;
  response = codes "200 Output Follows\n";
  content_type = codes "text/html";
  sent = [];
}

-- `_httpd_net_write`.
abbrev pub net_write : Bytes → Response → Response
net_write text r = record r { sent = r.sent ++ text }

-- `httpdSetResponse`.
abbrev pub set_response : Bytes → Response → Response
set_response msg r = record r { response = take (http_max_url - 1) msg }

abbrev pub ends_in_newline : Bytes → Bool
ends_in_newline [] = false
ends_in_newline (c ∷ []) = c == b'\n'
ends_in_newline (c ∷ d ∷ s) = ends_in_newline (d ∷ s)

-- `strncat`, and a newline if there is none.
abbrev pub with_header : Bytes → Bytes
with_header headers = if ends_in_newline headers then headers else headers ++ b'\n' ∷ []

-- `httpdAddHeader`.
unfoldable pub add_header : Bytes → Response → Response
add_header msg r =
    let size : ℕ = http_max_headers - 2 - length r.headers in
    if ltb 0 size then record r { headers = with_header (r.headers ++ take size msg) } else r

-- `_httpd_sendText`.
unfoldable pub send_text : Bytes → Response → Response
send_text msg r = net_write msg (record r { response_length = r.response_length + length msg })

-- What stands outside src: the text that `_httpd_formatTimeString` makes of a time, of the present for
-- 0; the bytes of a file with its time of change, if there is such a file; the text of `/proc/net/arp`, if
-- it can be opened.
pub record System : Type 0 where
  pub time_string : ℕ → Bytes
  pub file : Bytes → Option (Bytes × ℕ)
  pub proc_net_arp : Option Bytes

-- The members of the class that the responses use.
pub record Settings : Type 0 where
  pub html_path : Bytes
  pub re_url : Bytes
  pub gw_address : Bytes
  pub gw_port : ℕ

-- The length and the time of change, which are sent for a length that is known.
abbrev pub length_lines : System → ℕ → ℕ → Bytes
length_lines sys content_length mod_time =
    if ltb 0 content_length
    then codes "Content-Length: "
      ++ (decimal content_length
          ++ (b'\n' ∷ (codes "Last-Modified: " ++ (sys.time_string mod_time ++ b'\n' ∷ []))))
    else []

-- The text of `_httpd_sendHeaders`.
unfoldable pub header_text : System → ℕ → ℕ → Response → Bytes
header_text sys content_length mod_time r =
    codes "HTTP/1.0 "
    ++ (r.response
        ++ (r.headers
            ++ (codes "Date: "
                ++ (sys.time_string 0
                    ++ (codes "\nConnection: close\nContent-Type: "
                        ++ (r.content_type
                            ++ (b'\n'
                                ∷ (length_lines sys content_length mod_time ++ b'\n' ∷ []))))))))

-- `_httpd_sendHeaders`.
unfoldable pub send_headers : System → ℕ → ℕ → Response → Response
unfolding header_text
send_headers sys content_length mod_time r =
    if r.headers_sent
    then r
    else net_write (header_text sys content_length mod_time r) (record r { headers_sent = true })

-- `httpdOutput`.
unfoldable pub http_output : System → Bytes → Response → Option Response
unfolding send_headers
http_output sys msg r = elim (output r.request.variables msg) [
  | none ↦ none
  | some buf ↦
      let counted : Response = record r { response_length = r.response_length + length buf } in
      some (net_write buf (send_headers sys counted.response_length 0 counted))
]

-- `httpdAddVariable` on the request of a response.
abbrev pub set_variable : Bytes → Bytes → Response → Response
set_variable name value r =
    let q : Request = r.request in
    record r { request = record q { variables = add_variable q.variables name (some value) } }

-- `send_http_page`; the file that cannot be read leaves the response as it is.
unfoldable pub send_http_page : System → Settings → Bytes → Bytes → Response → Option Response
unfolding http_output
send_http_page sys set title message r = elim (sys.file set.html_path) [
  | none ↦ some r
  | some (buffer, time) ↦ http_output sys (c_string buffer) (
      set_variable (codes "nodeID") (codes "123")
        (set_variable (codes "message") message (set_variable (codes "title") title r)))
]

-- `http_callback_fasterconfig`.
unfoldable pub http_callback_fasterconfig : System → Settings → Response → Option Response
unfolding send_http_page
http_callback_fasterconfig sys set r =
    send_http_page sys set (codes "FasterConfig")
      (codes "Please use the menu to navigate the features of this FasterConfig installation.") r

abbrev pub or_default : Option Bytes → Bytes → Bytes
or_default none d = d
or_default (some text) d = text

-- The link of the page that goes with a redirection.
abbrev pub link_to : Bytes → Bytes
link_to url = codes "Please <a href='" ++ (url ++ codes "'>click here</a>.")

-- `http_send_redirect`; `none` is a null text.
unfoldable pub http_send_redirect :
    System → Settings → Bytes → Option Bytes → Response → Option Response
unfolding send_http_page add_header
http_send_redirect sys set url text r =
    let status : Bytes = codes "302 " ++ (or_default text (codes "Redirecting") ++ b'\n' ∷ []) in
    send_http_page sys set (or_default text (codes "Redirection to message")) (link_to url)
      (add_header (codes "Location: " ++ url) (set_response status r))

-- `r->request.query[0] ? "?" : ""`.
abbrev pub mark : Bytes → Bytes
mark [] = []
mark (c ∷ s) = b'?' ∷ []

-- The URL that was asked for, in the size of `tmp_url`.
unfoldable pub original_url : Request → Bytes
original_url q = take 4094 (codes "http://" ++ (q.host ++ (q.path ++ (mark q.query ++ q.query))))

-- The parameter with the address of the hardware, if it is known.
abbrev pub mac_parameter : Option Bytes → Bytes
mac_parameter none = []
mac_parameter (some mac) = codes "&mac=" ++ mac

-- `urlFragment`.
unfoldable pub login_url : System → Settings → Bytes → Request → Bytes
unfolding original_url arp_get
login_url sys set client_addr q =
    set.re_url
    ++ (codes "/?gw_address="
        ++ (set.gw_address
            ++ (codes "&gw_port="
                ++ (decimal set.gw_port
                    ++ (codes "&ip="
                        ++ (client_addr
                            ++ (mac_parameter (arp_get sys.proc_net_arp client_addr)
                                ++ (codes "&url=" ++ url_encode (original_url q)))))))))

-- `http_callback_404`.
unfoldable pub http_callback_404 : System → Settings → Response → Option Response
unfolding login_url http_send_redirect
http_callback_404 sys set r =
    http_send_redirect sys set (login_url sys set r.client_addr r.request)
      (some (codes "Redirect to login page")) r
