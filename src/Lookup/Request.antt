-- ===== src/Lookup/Request.antt =====
-- src/DNSLookup.cpp and src/dnsserver.cpp together: the request of `SendDNSRequest`, at the server.
use faster_config.Base.{
  ℕ, ◌/◌, ◌%◌, ◌^◌, ◌≤◌, ◌<◌, Option, some, [], ◌∷◌, ◌++◌, Bytes, leb, le→leb, true, length, All,
  field, length-append, ◌≡◌, refl, arith,
}
use faster_config.Wire.{put2byte}
use faster_config.Name.Labels.{split, wire_name, IsLabel}
use faster_config.Name.Encode.{length-wire_name-split}
use faster_config.Dns.Types.{htons}
use faster_config.Dns.Reply.{InAddr, s_addr}
use faster_config.Dns.Server.{Server, sent, buffer_size, serve}
use faster_config.Dns.Reader.{read_message}
use faster_config.Dns.Sections.{expected}
use faster_config.Dns.Answer.{message_of}
use faster_config.Dns.Loop.{IsFull}
use faster_config.Dns.Service.{query_of, is_host, ExpandsPlain, IsQuery, serve-query_of}
use faster_config.Lookup.{packet_max_size, send_dns_request}
use faster_config.Lookup.Tokens.{encode_dot_str-wire_name, encoded_string-split}

-- The request is a query with one question for the address of the name, under the id in the order
-- of the network. The labels have 1 to 63 octets, the name has at most 253 characters, and the id
-- is a 16-bit value.
pub send_dns_request-query_of :
    (proc_id : ℕ) (name : Bytes)
    → proc_id < 2 ^ 16
    → All IsLabel (split name)
    → length name ≤ 253
    → send_dns_request proc_id name ≡ some (query_of (htons proc_id) 0x0100 0 0 name 1 [])
unfolding send_dns_request put2byte
send_dns_request-query_of proc_id name h labels short =
    let w = wire_name (split name) in
    let encoded = encode_dot_str-wire_name name labels (omega (arith, short)) in
    let text = encoded_string-split name labels in
    let high : field (htons proc_id) 8 8 ≡ proc_id % 256 = omega arith in
    let low : field (htons proc_id) 0 8 ≡ proc_id / 256 % 256 = omega arith in
    let tail : Bytes = w ++ 0 ∷ 1 ∷ 0 ∷ 1 ∷ [] in
    let room : leb
          (length
            (proc_id % 256 ∷ proc_id / 256 % 256 ∷ 1 ∷ 0 ∷ 0 ∷ 1 ∷ 0 ∷ 0 ∷ 0 ∷ 0 ∷ 0 ∷ 0 ∷ tail))
          packet_max_size
        ≡ true =
      le→leb _ _
        (omega (arith, short, length-append w (0 ∷ 1 ∷ 0 ∷ 1 ∷ []), length-wire_name-split name)) in
    rw (encoded, send_dns_request) (rw text (rw (room, high, low)))

length-request :
    (id : ℕ) (name : Bytes)
    → length name ≤ 253
    → length (query_of id 0x0100 0 0 name 1 []) ≤ buffer_size
unfolding put2byte
length-request id name short = omega (
  arith,
  short,
  length-append (wire_name (split name)) (0 ∷ 1 ∷ 0 ∷ 1 ∷ []),
  length-wire_name-split name,
)

module _ (dn_expand : Bytes → Option ℕ → Bytes → Option ℕ × Bytes) (inet_aton : Bytes → InAddr)
    (expands : ExpandsPlain dn_expand) where
  -- What `SendDNSRequest` sends for a host name is answered by `DnsServer` in the round that
  -- receives it: the reply reads as the id and the question of the request with one address
  -- record, at the spoofed address. The buffer of the server has its 1024 bytes; the name has at
  -- most 253 characters that `dn_expand` does not escape, in labels of 1 to 63, and the id is a
  -- 16-bit value. Assumed is that `dn_expand` reads plain names of at most 253 characters.
  pub serve-send_dns_request :
      (s : Server) (proc_id : ℕ) (name : Bytes)
      → IsFull s
      → proc_id < 2 ^ 16
      → All IsLabel (split name)
      → All (λ c. is_host c ≡ true) name
      → length name ≤ 253
      → (request : Bytes) × (s' : Server) × (reply : Bytes) × (send_dns_request proc_id name
          ≡ some request)
        × (serve dn_expand inet_aton s (some request) ≡ (s', sent reply))
        × (read_message reply
            ≡ some (
                message_of (htons proc_id) name 1 1 (expected 1 (s_addr (inet_aton s.spoof_addr)))))
  serve-send_dns_request s proc_id name full h labels host short =
      let id = htons proc_id in
      let word : id < 2 ^ 16 = omega arith in
      let asked : IsQuery id 0x0100 0 0 name 1 [] = record {
        id_word = word;
        flags_word = omega arith;
        query = refl;
        standard = refl;
        t_word = omega arith;
        not_wins = λ e. omega (arith, e);
        short = short;
        extra_fits = length-request id name short;
      } in
      let (s', reply, served, read) =
        serve-query_of dn_expand inet_aton expands s id 0x0100 0 0 name 1 [] full asked labels
          host in
      (
        query_of id 0x0100 0 0 name 1 [],
        s',
        reply,
        send_dns_request-query_of proc_id name h labels short,
        served,
        read,
      )
