-- ===== src/Http/Response/Headers.antt =====
-- src/httpd.cpp: the headers of a response stay in their array, and go out once.
use faster_config.Base.{
  ℕ, ◌+◌, ◌-◌, ◌≤◌, ◌<◌, List, [], ◌∷◌, ◌++◌, Bytes, Bool-cases, ltb, ltb→lt, length, take,
  length-append, length-take, inl, inr, arith,
}
use faster_config.Http.Response.{
  Response, http_max_headers, add_header, with_header, ends_in_newline,
}

-- Adding several headers, the first one first.
abbrev pub add_headers : List Bytes → Response → Response
add_headers [] r = r
add_headers (msg ∷ msgs) r = add_headers msgs (add_header msg r)

length-with_header : (s : Bytes) → length (with_header s) ≤ length s + 1
length-with_header s = elim (Bool-cases (ends_in_newline s)) [
  | inl e ↦ rw e (omega arith)
  | inr e ↦ rw e (omega (arith, length-append s (b'\n' ∷ [])))
]

add_header-length :
    (msg : Bytes) (r : Response)
    → length r.headers < http_max_headers
    → length (add_header msg r).headers < http_max_headers
unfolding add_header
add_header-length msg r h =
    let size : ℕ = http_max_headers - 2 - length r.headers in
    elim (Bool-cases (ltb 0 size)) [
      | inl room ↦
          let lt = ltb→lt 0 size room in
          let longer = length-append r.headers (take size msg) in
          let cut = length-take size msg in
          let ended = length-with_header (r.headers ++ take size msg) in
          rw room (omega (arith, h, lt, longer, cut, ended))
      | inr full ↦ rw full h
    ]

-- However many headers are added, of whatever length, they stay in the array of 1024 bytes with their
-- terminator, if those already there do.
pub add_headers-length :
    (msgs : List Bytes) (r : Response)
    → length r.headers < http_max_headers
    → length (add_headers msgs r).headers < http_max_headers
add_headers-length [] r h = h
add_headers-length (msg ∷ msgs) r h =
    add_headers-length msgs (add_header msg r) (add_header-length msg r h)
