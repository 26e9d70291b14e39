-- ===== src/Tests/Requests.antt =====
-- src/httpd.cpp: runs of the reading of requests, and the theorems at concrete inputs.
use faster_config.Base.{
  ℕ, none, some, [], ◌∷◌, ◌++◌, Bytes, codes, IsByte, true, not, ◌==◌, if◌then◌else◌, ltb, length,
  replicate, length-replicate, All, ltb→lt, leb→le, ◌≡◌, refl, ◌≢◌, arith,
}
use faster_config.Http.Url.{sanitise_url, remove_slashes, remove_dots, remove_parents, starts_with}
use faster_config.Http.Escape.{url_encode, escape, escape_byte, acceptable, hex}
use faster_config.Http.Decode.{decode}
use faster_config.Http.Decode.Groups.{encode}
use faster_config.Http.Decode.RoundTrip.{decode-encode}
use faster_config.Http.Reader.{Reader, stream, arrivals}
use faster_config.Http.Request.{http_get, new_request, accepted, read_request}
use faster_config.Http.Request.Text.{all}
use faster_config.Http.Request.Lines.{request_of, line_list, read_request-line_list}
use faster_config.Http.Request.Sent.{Sent, IsSent, request_text, meant}
use faster_config.Http.Request.RoundTrip.{read_request-request_text}

pub bytes_of : (s : Bytes) → all (λ c. ltb c 256) s ≡ true → All IsByte s
unfolding all
bytes_of [] h = tt
bytes_of (c ∷ s) h = (ltb→lt c 256 (ground (arith, h)), bytes_of s (ground (arith, h)))

nonzero_of : (s : Bytes) → all (λ c. not (c == 0)) s ≡ true → All (λ c. c ≢ 0) s
unfolding all
nonzero_of [] h = tt
nonzero_of (c ∷ s) h = (ground (arith, h), nonzero_of s (ground (arith, h)))

encode_padded : encode (codes "ab") ≡ codes "YWI="
encode_padded = refl

decode-encode_example :
    decode (encode (codes "admin:secret") ++ 0 ∷ b'x' ∷ []) 100
    ≡ (if ltb (length (codes "admin:secret")) 100 then some (codes "admin:secret") else none)
decode-encode_example =
    decode-encode (codes "admin:secret") (b'x' ∷ [])
      (bytes_of (codes "admin:secret") (unfold all in refl))
      (nonzero_of (codes "admin:secret") (unfold all in refl))

abbrev pub login : Sent
login = record {
  method = http_get;
  path = codes "login";
  pairs = (codes "a", codes "b c") ∷ [];
  host = codes "box.lan";
  user = codes "admin";
  password = codes "secret";
}

pub login-IsSent : IsSent login
unfolding all sanitise_url remove_slashes remove_dots remove_parents starts_with url_encode escape
    escape_byte acceptable hex
login-IsSent = record {
  known = λ e. cc;
  words = refl;
  short = leb→le _ _ refl;
  clean = refl;
  no_mark = refl;
  named = (((refl, tt), bytes_of (codes "b c") refl, (refl, (refl, (refl, tt)))), tt);
  host_line = refl;
  host_short = leb→le _ _ refl;
  no_colon = refl;
  auth_bytes = bytes_of (codes "admin:secret") refl;
  auth_nonzero = nonzero_of (codes "admin:secret") refl;
  auth_short = ltb→lt _ _ refl;
}

-- The request in two reads, the first of which ends inside the first line.
abbrev pub two_reads : Reader
two_reads = record {
  ready = [];
  reads =
      codes "GET /lo"
      ∷ (codes
          "gin?a=b%20c HTTP/1.0\r\nHost: box.lan\r\nAuthorization: Basic YWRtaW46c2VjcmV0\r\n\r\n")
      ∷ [];
}

pub two_reads-stream : stream two_reads ≡ request_text login []
unfolding stream arrivals url_encode escape escape_byte acceptable hex
two_reads-stream = refl

read_request-request_text_example :
    read_request (replicate 10240 0) new_request two_reads ≡ some (accepted (meant login))
read_request-request_text_example =
    read_request-request_text (replicate 10240 0) login [] two_reads login-IsSent
      (length-replicate {A = ℕ} 10240 0) two_reads-stream

read_request-line_list_example :
    read_request (replicate 10240 0) new_request two_reads
    ≡ some (request_of (replicate 10240 0) new_request (line_list (stream two_reads)))
read_request-line_list_example = read_request-line_list (replicate 10240 0) new_request two_reads
