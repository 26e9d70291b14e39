-- ===== src/Tests/Dns.antt =====
-- src/dnsserver.cpp: runs of the server, and its theorems at concrete datagrams.
use faster_config.Base.{
  IsByte, field, get_or, List, ◌%◌, ◌^◌, ◌+◌, suc, ℕ, Option, none, some, [], ◌∷◌, ◌++◌, Bytes,
  codes, true, false, leb, length, drop, replicate, All, ltb→lt, leb→le, length-append, drop-append,
  ◌≡◌, refl, ap, arith,
}
use faster_config.Wire.{put2byte}
use faster_config.Name.{encode_domain}
use faster_config.Name.Labels.{
  split, wire_name, join, read_labels, IsLabel, read_labels-wire_name, join-split,
}
use faster_config.Name.Encode.{read_labels-encode_domain, length-lt-wire_name}
use faster_config.Dns.Types.{htons}
use faster_config.Dns.Reply.{InAddr, s_addr, prepare_reply}
use faster_config.Dns.Server.{Server, sent, receive, packet, serve}
use faster_config.Dns.Reader.{read_message}
use faster_config.Dns.Sections.{expected}
use faster_config.Dns.Answer.{message_of, read_message-packet_prepare, read_message-packet_wins}
use faster_config.Tests.Requests.{bytes_of}
use faster_config.Http.Request.Text.{all}
use faster_config.Dns.Asked.{word, serve-words}
use faster_config.Lookup.{send_dns_request, encoded, encode_dot_str, decode_dot_str, decoded}
use faster_config.Lookup.RoundTrip.{
  dotted, wire_labels, decode_dot_str-encode, decode_dot_str-pointer,
}
use faster_config.Lookup.Request.{serve-send_dns_request}
use faster_config.Lookup.Client.{dns_lookup, dns_lookup_text}
use faster_config.Lookup.Client.Answered.{dns_lookup-answered}
use faster_config.Lookup.Receive.{
  fault, accepted, waiting, recvbuf_size, is_reply, recv_dns_response,
}
use faster_config.Lookup.Receive.Spoofed.{recv_dns_response-spoofed}
use faster_config.Lookup.Receive.Records.{reply_with}
use faster_config.Lookup.Receive.Answers.{recv_dns_response-reply_with}
use faster_config.Dns.Service.{is_host, query_of, ExpandsPlain, IsQuery, serve-query_of}

-- A `dn_expand` that reads plain names, and an `inet_aton` that knows one address.
abbrev expand_plain : Bytes → Option ℕ → Bytes → Option ℕ × Bytes
expand_plain buffer nbytes dst = elim (read_labels (length buffer) (drop 12 buffer)) [
  | none ↦ (none, dst)
  | some (ls, rest) ↦ (some (length (wire_name ls)), join ls)
]

expand_plain-ExpandsPlain : ExpandsPlain expand_plain
expand_plain-ExpandsPlain header name tail dst n h labels host short le =
    let whole = header ++ (wire_name (split name) ++ tail) in
    let behind : drop 12 whole ≡ wire_name (split name) ++ tail =
      drop-append 12 header (wire_name (split name) ++ tail) h in
    let read =
      read_labels-wire_name (split name) tail (length whole)
        (omega (
          arith,
          length-append header (wire_name (split name) ++ tail),
          length-append (wire_name (split name)) tail,
          length-lt-wire_name (split name),
        ))
        labels in
    rw (behind, read, expand_plain)
      (ap (λ s. (some (length (wire_name (split name))), s)) (join-split name))

abbrev local_address : Bytes → InAddr
local_address s = record { byte0 = 172; byte1 = 31; byte2 = 255; byte3 = 240 }

abbrev server : Server
server = record {
  buffer = replicate 1024 0;
  name = [];
  t_class = 0;
  t_type = 0;
  spoof_addr = codes "172.31.255.240";
}

abbrev host : Bytes
host = codes "a.bc"

host_labels : All IsLabel (split host)
unfolding split
host_labels = ((ltb→lt _ _ refl, ltb→lt _ _ refl), ((ltb→lt _ _ refl, ltb→lt _ _ refl), tt))

plain-IsQuery : IsQuery 7 0x0100 0 0 host 1 []
unfolding split wire_name put2byte
plain-IsQuery = record {
  id_word = ltb→lt _ _ refl;
  flags_word = ltb→lt _ _ refl;
  query = refl;
  standard = refl;
  t_word = ltb→lt _ _ refl;
  not_wins = λ e. omega arith;
  short = leb→le _ _ refl;
  extra_fits = leb→le _ _ refl;
}

serve-query_of_example :
    (s' : Server) × (p : Bytes) × (serve expand_plain local_address server
        (some (query_of 7 0x0100 0 0 host 1 []))
      ≡ (s', sent p))
    × (read_message p ≡ some (message_of 7 host 1 1 (expected 1 (172 ∷ 31 ∷ 255 ∷ 240 ∷ []))))
serve-query_of_example =
    serve-query_of expand_plain local_address expand_plain-ExpandsPlain server 7 0x0100 0 0 host 1
      [] refl plain-IsQuery host_labels (refl, (refl, (refl, (refl, tt))))

read_message-packet_prepare_example :
    read_message (packet 7 host 15 1 (prepare_reply 15 (1 ∷ 2 ∷ 3 ∷ 4 ∷ [])))
    ≡ some (message_of 7 host 15 1 (expected 15 (1 ∷ 2 ∷ 3 ∷ 4 ∷ [])))
read_message-packet_prepare_example =
    read_message-packet_prepare 7 host 15 1 2 3 4 (ltb→lt _ _ refl) (ltb→lt _ _ refl)
      (λ e. omega arith) host_labels

read_message-packet_wins_example :
    (shown rest : Bytes) × (packet 7 host 0xFF01 1 (prepare_reply 0xFF01 (1 ∷ 2 ∷ 3 ∷ 4 ∷ []))
      ≡ shown ++ rest)
    × (length rest ≡ 16)
    × (read_message shown ≡ some (message_of 7 host 0xFF01 1 ([], [], [])))
read_message-packet_wins_example =
    read_message-packet_wins 7 host 1 2 3 4 (ltb→lt _ _ refl) host_labels

reply :
    (s' : Server) × (p : Bytes) × (serve expand_plain local_address server
        (some (query_of 7 0x0100 0 0 host 1 []))
      ≡ (s', sent p))
reply =
    let (s', p, e, m) =
      serve-query_of expand_plain local_address expand_plain-ExpandsPlain server 7 0x0100 0 0 host 1
        [] refl plain-IsQuery host_labels (refl, (refl, (refl, (refl, tt)))) in
    (s', p, e)

reply-bytes : All IsByte (receive server (some (query_of 7 0x0100 0 0 host 1 []))).0
unfolding split wire_name put2byte all
reply-bytes = bytes_of (receive server (some (query_of 7 0x0100 0 0 host 1 []))).0 refl

host-read :
    expand_plain
      (receive server (some (query_of 7 0x0100 0 0 host 1 []))).0
      (receive server (some (query_of 7 0x0100 0 0 host 1 []))).1
      []
    ≡ (some 6, host)
unfolding read_labels wire_name split join put2byte
host-read = refl

serve-words_example :
    let b = (receive server (some (query_of 7 0x0100 0 0 host 1 []))).0 in
    (field (get_or b 2 0) 3 5 ≡ 0)
    × (word b 4 ≡ 1)
    × (word b 6 ≡ 0)
    × (word b (14 + 6) ≡ 1)
    × (reply.1
        ≡ packet
            (word b 0)
            host
            (word b (12 + 6))
            1
            (prepare_reply (word b (12 + 6)) (s_addr (local_address server.spoof_addr))))
serve-words_example =
    serve-words expand_plain local_address server (some (query_of 7 0x0100 0 0 host 1 [])) 6 host
      reply.2 host-read reply-bytes

read_labels-encode_domain_example :
    (read_labels 6 (drop 2 ((encode_domain (9 ∷ 9 ∷ []) host).0 ++ 5 ∷ []))
      ≡ some (split host, 5 ∷ []))
    × (join (split host) ≡ host)
    × ((encode_domain (9 ∷ 9 ∷ []) host).1 ≡ 6)
read_labels-encode_domain_example = read_labels-encode_domain (9 ∷ 9 ∷ []) host (5 ∷ []) host_labels

host_chars : All (λ c. is_host c ≡ true) host
host_chars = (refl, (refl, (refl, (refl, tt))))

serve-send_dns_request_example :
    (request : Bytes) × (s' : Server) × (reply : Bytes) × (send_dns_request 7 host ≡ some request)
    × (serve expand_plain local_address server (some request) ≡ (s', sent reply))
    × (read_message reply
        ≡ some (message_of (htons 7) host 1 1 (expected 1 (172 ∷ 31 ∷ 255 ∷ 240 ∷ []))))
serve-send_dns_request_example =
    serve-send_dns_request expand_plain local_address expand_plain-ExpandsPlain server 7 host refl
      (ltb→lt _ _ refl) host_labels host_chars (leb→le _ _ refl)

decode_dot_str-encode_example :
    (e : Bytes) × (encode_dot_str host (length host % 2 ^ 16 + 2) ≡ encoded e)
    × (decode_dot_str (length (split host) + 1) none 128 (e ++ 5 ∷ []) ≡ decoded host 6)
decode_dot_str-encode_example =
    decode_dot_str-encode host 0 none 128 (5 ∷ []) host_labels (leb→le _ _ refl) (ltb→lt _ _ refl)
      (ltb→lt _ _ refl)

w-IsLabel : All IsLabel (codes "w" ∷ [])
w-IsLabel = ((ltb→lt _ _ refl, ltb→lt _ _ refl), tt)

abbrev compressed : Bytes
compressed = replicate 12 0 ++ wire_name (split host)

behind-header : drop 12 compressed ≡ wire_name (split host) ++ []
unfolding split wire_name
behind-header = refl

decode_dot_str-pointer_example :
    decode_dot_str
      (1 + suc (length (split host) + 1))
      (some compressed)
      128
      (wire_labels (codes "w" ∷ []) ++ 0xc0 ∷ 12 ∷ [])
    ≡ decoded (dotted (codes "w" ∷ []) ++ host) (length (wire_labels (codes "w" ∷ [])) + 2)
decode_dot_str-pointer_example =
    decode_dot_str-pointer (codes "w" ∷ []) host compressed [] [] 0xc0 12 0 128 w-IsLabel
      host_labels (leb→le _ _ refl) behind-header (leb→le _ _ refl) (ltb→lt _ _ refl)
      (ltb→lt _ _ refl) (ltb→lt _ _ refl)

recv_dns_response-spoofed_example :
    recv_dns_response 9 4 true true 7 (none ∷ some reply.1 ∷ []) ≡ waiting
recv_dns_response-spoofed_example =
    recv_dns_response-spoofed expand_plain local_address 9 4 true true 7 (none ∷ some reply.1 ∷ [])
      (tt, ((server, some (query_of 7 0x0100 0 0 host 1 []), reply.0, reply.2), tt))

reply_with-short :
    leb
      (length (reply_with 7 0x8580 host 3600 ((1 ∷ 2 ∷ 3 ∷ 4 ∷ []) ∷ (5 ∷ 6 ∷ 7 ∷ 8 ∷ []) ∷ [])))
      recvbuf_size
    ≡ true
unfolding split wire_name
reply_with-short = refl

not_reply : is_reply 7 (replicate 12 0) ≡ false
unfolding is_reply
not_reply = refl

recv_dns_response-reply_with_example :
    recv_dns_response (suc (length (split host) + 1)) 4 true false 7 (
      none
      ∷ some (replicate 12 0)
      ∷ some (reply_with 7 0x8580 host 3600 ((1 ∷ 2 ∷ 3 ∷ 4 ∷ []) ∷ (5 ∷ 6 ∷ 7 ∷ 8 ∷ []) ∷ []))
      ∷ [])
    ≡ accepted ((1 ∷ 2 ∷ 3 ∷ 4 ∷ []) ∷ (5 ∷ 6 ∷ 7 ∷ 8 ∷ []) ∷ []) []
recv_dns_response-reply_with_example =
    recv_dns_response-reply_with 0 7 0x8580 host 3600
      ((1 ∷ 2 ∷ 3 ∷ 4 ∷ []) ∷ (5 ∷ 6 ∷ 7 ∷ 8 ∷ []) ∷ []) (none ∷ some (replicate 12 0) ∷ []) []
      (tt, ((leb→le _ _ refl, not_reply), tt)) (ltb→lt _ _ refl) (ltb→lt _ _ refl) refl host_labels
      (leb→le _ _ refl) (ltb→lt _ _ refl) (refl, (refl, tt)) (leb→le _ _ reply_with-short)

-- A network that answers every request at once.
abbrev answering : Bytes → List (Option Bytes)
answering request =
    some (reply_with 7 0x8580 host 3600 ((1 ∷ 2 ∷ 3 ∷ 4 ∷ []) ∷ (5 ∷ 6 ∷ 7 ∷ 8 ∷ []) ∷ [])) ∷ []

dns_lookup-answered_example :
    (dns_lookup (suc (length (split host) + 1)) 4 true false answering true 7 (some host)
      ≡ accepted ((1 ∷ 2 ∷ 3 ∷ 4 ∷ []) ∷ (5 ∷ 6 ∷ 7 ∷ 8 ∷ []) ∷ []) [])
    × (dns_lookup_text (suc (length (split host) + 1)) 4 true false answering true 7 (some host)
        ≡ fault)
dns_lookup-answered_example =
    dns_lookup-answered 0 7 0x8580 host 3600 ((1 ∷ 2 ∷ 3 ∷ 4 ∷ []) ∷ (5 ∷ 6 ∷ 7 ∷ 8 ∷ []) ∷ []) []
      answering refl (ltb→lt _ _ refl) (ltb→lt _ _ refl) refl host_labels (leb→le _ _ refl)
      (ltb→lt _ _ refl) (refl, (refl, tt)) (leb→le _ _ reply_with-short)
