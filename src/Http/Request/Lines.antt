-- ===== src/Http/Request/Lines.antt =====
-- src/httpd.cpp: what `httpdReadRequest` makes of the lines of what arrives.
use faster_config.Base.{
  ℕ, zero, suc, ◌+◌, ◌<◌, Option, some, List, [], ◌∷◌, Bytes, length, ◌≡◌, refl, inl, inr, arith,
}
use faster_config.Http.Reader.{Reader, stream}
use faster_config.Http.Reader.Lines.{lines_from, read_line-Reads}
use faster_config.Http.Request.{
  Request, Next, Reading, accepted, refused, overrun, take_first, take_query, written, finished,
  failed, more, take_header, header_loop, read_request,
}

-- The headers of a request are its lines up to an empty one.
abbrev pub headers_of : Bytes → Request → List Bytes → Reading
headers_of buf q [] = accepted (take_query q)
headers_of buf q (line ∷ ls) = elim (take_header buf line q) [
  | finished ↦ accepted (take_query q)
  | failed ↦ overrun
  | more q' ↦ headers_of (written buf line) q' ls
]

abbrev pub request_of : Bytes → Request → List Bytes → Reading
request_of buf q [] = accepted (take_query q)
request_of buf q (line ∷ ls) = elim (take_first buf line q) [
  | accepted q' ↦ headers_of (written buf line) q' ls
  | other ↦ other
]

-- The lines of a text.
abbrev pub line_list : Bytes → List Bytes
line_list s = lines_from 10239 10239 [] s

-- The two loops take the same way behind a line when they agree on what follows it.
next-agree :
    (n : Next) (q : Request) (go : Request → Option Reading) (by_lines : Request → Reading)
    → ((q' : Request) → go q' ≡ some (by_lines q'))
    → ◌≡◌ {A = Option Reading}
        (elim n [
          | finished ↦ some (accepted (take_query q))
          | failed ↦ some overrun
          | more q' ↦ go q'
        ])
        (some (elim n [
          | finished ↦ accepted (take_query q)
          | failed ↦ overrun
          | more q' ↦ by_lines q'
        ]))
next-agree finished q go by_lines h = refl
next-agree failed q go by_lines h = refl
next-agree (more q') q go by_lines h = h q'

header_loop-line_list :
    (fuel : ℕ) (buf : Bytes) (q : Request) (r : Reader)
    → length (stream r) < fuel
    → header_loop fuel buf q r ≡ some (headers_of buf q (line_list (stream r)))
unfolding header_loop
header_loop-line_list zero buf q r h = absurd (omega arith)
header_loop-line_list (suc fuel) buf q r h = elim (read_line-Reads 10239 r) [
  | inl (e, l) ↦ rw (header_loop, e, l)
  | inr (line, r', e, l, lt) ↦
      let ih = λ (q' : Request).
        header_loop-line_list fuel (written buf line) q' r' (omega (arith, lt, h)) in
      rw (header_loop, e, l)
        (next-agree (take_header buf line q) q (λ q'. header_loop fuel (written buf line) q' r')
          (λ q'. headers_of (written buf line) q' (line_list (stream r'))) ih)
]

first-agree :
    (n : Reading) (go : Request → Option Reading) (by_lines : Request → Reading)
    → ((q : Request) → go q ≡ some (by_lines q))
    → ◌≡◌ {A = Option Reading}
        (elim n [ accepted q ↦ go q | other ↦ some other ])
        (some (elim n [ accepted q ↦ by_lines q | other ↦ other ]))
first-agree (accepted q) go by_lines h = h q
first-agree (refused s) go by_lines h = refl
first-agree overrun go by_lines h = refl

-- Reading a request always ends, and gives what the lines of all that arrives make of it: the result
-- depends neither on how the reads cut the text nor on what is in the buffer and what is to come. A line
-- of 10240 characters ends it with a write behind the array.
pub read_request-line_list :
    (buf : Bytes) (q : Request) (r : Reader)
    → read_request buf q r ≡ some (request_of buf q (line_list (stream r)))
unfolding read_request
read_request-line_list buf q r = elim (read_line-Reads 10239 r) [
  | inl (e, l) ↦ rw (read_request, e, l)
  | inr (line, r', e, l, lt) ↦
      let ih = λ (q' : Request).
        header_loop-line_list (length (stream r') + 1) (written buf line) q' r' (omega arith) in
      rw (read_request, e, l)
        (first-agree (take_first buf line q)
          (λ q'. header_loop (length (stream r') + 1) (written buf line) q' r')
          (λ q'. headers_of (written buf line) q' (line_list (stream r'))) ih)
]
