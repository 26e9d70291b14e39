-- ===== src/Http/Serve.antt =====
-- src/httpd.cpp: the errors and files that the server sends, the entries it serves, and the worker
-- thread from the request that is read to the end of the connection.
pub mod Login
use faster_config.Base.{
  ℕ, zero, suc, ◌+◌, ◌-◌, Option, none, some, List, [], ◌∷◌, ◌++◌, Bytes, codes, str_eq, Bool, true,
  false, not, ◌==◌, if◌then◌else◌, length, take,
}
use faster_config.Http.Content
use faster_config.Http.Content.{
  file, c_funct, ember_funct, static, wildcard, c_wildcard, Callback, Content, Dir, split_last,
  http_max_url, no_slash, null_read, not_found, serve, process_request, start_content,
}
use faster_config.Http.Request.{
  Request, new_request, accepted, refused, overrun, eq_nocase, read_request,
}
use faster_config.Http.Reader.{Reader}
use faster_config.Http.Response.{
  Response, System, Settings, standard_response, net_write, set_response, send_text, send_headers,
  http_output, http_callback_fasterconfig, http_callback_404,
}

-- The callback of an error, if one is set; it is given the code.
abbrev pub ErrorFunction : Type 0
ErrorFunction = Option (ℕ → Response → Option Response)

-- What the responses use of `httpd`.
pub record Server : Type 0 where
  pub start_time : ℕ
  pub content : Dir
  pub error_function304 : ErrorFunction
  pub error_function403 : ErrorFunction
  pub error_function404 : ErrorFunction

-- `httpdSetErrorFunction` with its result.
unfoldable pub set_error_function : ℕ → ErrorFunction → Server → Server × Bool
set_error_function error function server =
    if error == 304
    then (record server { error_function304 = function }, true)
    else if error == 403
    then (record server { error_function403 = function }, true)
    else if error == 404
    then (record server { error_function404 = function }, true)
    else (server, false)

-- `strrchr(path, '.')`.
unfoldable pub suffix_of : Bytes → Option Bytes
suffix_of [] = none
suffix_of (c ∷ s) = elim (suffix_of s) [
  | some t ↦ some t
  | none ↦ if c == b'.' then some (c ∷ s) else none
]

-- The type that a suffix stands for.
unfoldable pub type_of_suffix : Bytes → Bytes → Bytes
unfolding eq_nocase
type_of_suffix suffix type =
    if eq_nocase suffix (codes ".css")
    then codes "text/css"
    else if eq_nocase suffix (codes ".png")
    then codes "image/png"
    else if eq_nocase suffix (codes ".xbm")
    then codes "image/xbm"
    else if eq_nocase suffix (codes ".jpg")
    then codes "image/jpeg"
    else if eq_nocase suffix (codes ".gif")
    then codes "image/gif"
    else type

-- `entryName`.
abbrev pub name_behind : Option (Bytes × Bytes) → Bytes
name_behind none = []
name_behind (some (before, entry_name)) = entry_name

module _ (sys : System) where
  -- `_httpd_send304`, `_httpd_send403` and `_httpd_send404`, which log to a file that is never opened.
  unfoldable pub send304 : Server → Response → Option Response
  unfolding send_headers
  send304 server r = elim server.error_function304 [
    | some function ↦ function 304 r
    | none ↦ some (send_headers sys 0 0 (set_response (codes "304 Not Modified\n") r))
  ]

  unfoldable pub send403 : Server → Response → Option Response
  unfolding send_headers send_text
  send403 server r = elim server.error_function403 [
    | some function ↦ function 403 r
    | none ↦
        let started : Response =
          send_headers sys 0 0 (set_response (codes "403 Permission Denied\n") r) in
        some (
          send_text (codes "<BODY><H1>Access to the request URL was denied!</H1>\n")
            (send_text (codes "<HTML><HEAD><TITLE>403 Permission Denied</TITLE></HEAD>\n") started))
  ]

  unfoldable pub send404 : Server → Response → Option Response
  unfolding send_headers send_text
  send404 server r = elim server.error_function404 [
    | some function ↦ function 404 r
    | none ↦
        let started : Response = send_headers sys 0 0 (set_response (codes "404 Not Found\n") r) in
        some (
          send_text (codes "</BODY></HTML>\n") (
            send_text (codes "<BODY><H1>The request URL was not found!</H1>\n")
              (send_text (codes "<HTML><HEAD><TITLE>404 Not Found</TITLE></HEAD>\n") started)))
  ]

  -- `_httpd_checkLastModified(r, mod_time) != 0`. Nothing ever writes `ifModified`.
  abbrev pub check_last_modified : ℕ → Bool
  check_last_modified mod_time = not (str_eq (sys.time_string mod_time) [])

  -- `_httpd_sendStatic`: its first test does not end it, and the arguments of `_httpd_sendHeaders` are
  -- the time and the length, in this order.
  unfoldable pub send_static : Server → Bytes → Response → Option Response
  unfolding send304 http_output send_headers
  send_static server text r =
      let tested : Option Response =
        if check_last_modified server.start_time then some r else send304 server r in
      elim tested [
        | none ↦ none
        | some r' ↦ http_output sys text (send_headers sys server.start_time (length text) r')
      ]

  -- `_httpd_sendFile` with `_httpd_catFile`, whose reads make up the bytes of the file.
  unfoldable pub send_file : Server → Bytes → Response → Option Response
  unfolding suffix_of type_of_suffix send404 send304 send_headers send_text
  send_file server path r =
      let typed : Response = elim (suffix_of path) [
        | none ↦ r
        | some suffix ↦ record r { content_type = type_of_suffix suffix r.content_type }
      ] in
      elim (sys.file path) [
        | none ↦ send404 server typed
        | some (bytes, mod_time) ↦
            if check_last_modified mod_time
            then some (send_text bytes (send_headers sys (length bytes) mod_time typed))
            else send304 server typed
      ]

  -- `_httpd_sendDirectoryEntry`, whose result is never negative.
  unfoldable pub send_directory_entry : Server → Content → Bytes → Response → Option Response
  unfolding send_file
  send_directory_entry server entry entry_name r =
      send_file server (take (http_max_url - 1) (entry.path ++ b'/' ∷ entry_name)) r

  module _ (set : Settings) where
    -- A call through `entry->function`.
    unfoldable pub call : Callback → Response → Option Response
    unfolding http_callback_fasterconfig
    call Content.http_callback_fasterconfig r = http_callback_fasterconfig sys set r

    -- The switch at the end of `httpdProcessRequest`.
    unfoldable pub serve_entry : Server → Content → Bytes → Response → Option Response
    unfolding call send_static send_file send_directory_entry
    serve_entry server entry entry_name r = elim entry.type [
      | c_funct ↦ call entry.function r
      | c_wildcard ↦ call entry.function r
      | static ↦ send_static server entry.static_data r
      | file ↦ send_file server entry.path r
      | wildcard ↦ send_directory_entry server entry entry_name r
      | ember_funct ↦ some r
    ]

    -- `httpdProcessRequest`, of which `process_request` is the choice; a null pointer that is read ends
    -- the model.
    unfoldable pub respond : Server → Response → Option Response
    unfolding process_request send404 serve_entry
    respond server r =
        let started : Response = record r { response_length = 0 } in
        let path : Bytes = r.request.path in
        elim (process_request server.content path) [
          | no_slash ↦ some started
          | null_read ↦ none
          | not_found ↦ send404 server started
          | serve entry ↦
              serve_entry server entry (name_behind (split_last (take (http_max_url - 1) path)))
                started
        ]

    -- `thread_httpd`: what has been written when the connection is closed.
    unfoldable pub thread_httpd : Server → Bytes → Bytes → Reader → Option Bytes
    unfolding read_request respond
    thread_httpd server client_addr buf reader = elim (read_request buf new_request reader) [
      | none ↦ none
      | some reading ↦ elim reading [
        | refused text ↦ some text
        | overrun ↦ none
        | accepted q ↦ elim (respond server (standard_response client_addr q)) [
          | none ↦ none
          | some r ↦ some r.sent
        ]
      ]
    ]

    -- The server as `start` leaves it: the two entries, and the callback for 404.
    unfoldable pub start_server : ℕ → Server
    unfolding set_error_function http_callback_404 start_content
    start_server start_time =
        (set_error_function 404 (some (λ code. http_callback_404 sys set)) (record {
          start_time = start_time;
          content = start_content;
          error_function304 = none;
          error_function403 = none;
          error_function404 = none;
        })).0
