-- ===== src/Dns/Server.antt =====
-- src/dnsserver.cpp: `DnsServer` and one round of the loop of `run`. The resolver's `dn_expand` and
-- the library's `inet_aton` are parameters: `dn_expand buffer nbytes name` is its result (`none` is
-- -1) with the text that it leaves in `name`, which holds what an earlier round left there, and
-- `inet_aton s` the address that it leaves in `reply_addr`.
use faster_config.Base.{
  ℕ, ◌+◌, ◌-◌, min, Option, none, some, List, [], ◌∷◌, ◌++◌, Bytes, Bool, not, ◌&&◌, ◌==◌, leb,
  if◌then◌else◌, length, take, drop, replicate, memcpy,
}
use faster_config.Wire.{get2byte, put2byte}
use faster_config.Name.{encode_domain}
use faster_config.Dns.Types.{DnsHeader, dns_header, htons, ns_c_in, ns_o_query}
use faster_config.Dns.Reply.{Reply, InAddr, s_addr, prepare_reply}

abbrev pub buffer_size : ℕ
buffer_size = 1024

-- The members, and the arrays of `run`.
pub record Server : Type 0 where
  pub buffer : Bytes
  pub name : Bytes
  pub t_class : ℕ
  pub t_type : ℕ
  pub spoof_addr : Bytes

-- What a round does: nothing, a datagram to the client, or an access outside `buffer`.
pub data Outcome : Type 0 where
  ignored : Outcome
  sent : Bytes → Outcome
  out_of_bounds : Outcome

-- `set_spoof_addr`.
unfoldable pub set_spoof_addr : Bytes → Server → Server
set_spoof_addr addr s = record s { spoof_addr = addr }

-- `encode_spoof_dns_header`; the counts are `uint16_t`.
unfoldable pub encode_spoof_dns_header : ℕ → Reply → Bytes
unfolding put2byte
encode_spoof_dns_header id r =
    let ids = put2byte [] id in
    let flags = put2byte ids 0x8400 in
    let questions = put2byte flags 0x01 in
    let answers = put2byte questions r.n_answ in
    let authorities = put2byte answers r.n_auth in put2byte authorities r.n_addi

-- `encode_query_typy_and_class`.
unfoldable pub encode_query_type_and_class : Bytes → ℕ → ℕ → Bytes
unfolding put2byte
encode_query_type_and_class buffer t_type t_class = put2byte (put2byte buffer t_type) t_class

-- `put_block_date`.
unfoldable pub put_block_data : Bytes → Bytes → Bytes
put_block_data buffer block = buffer ++ block

-- The datagram that `run` builds from an empty buffer.
unfoldable pub packet : ℕ → Bytes → ℕ → ℕ → Reply → Bytes
unfolding encode_query_type_and_class put_block_data
packet id name t_type t_class r =
    let (named, name_len) = encode_domain (encode_spoof_dns_header id r) name in
    put_block_data (encode_query_type_and_class named t_type t_class) r.reply_data

-- The test for a plain query with one question.
unfoldable pub is_query : DnsHeader → Bool
is_query h = h.qr == 0 && h.opcode == ns_o_query && htons h.num_q == 1 && htons h.num_answer == 0

-- `recvfrom`: the buffer and the number of bytes, `none` for an error.
abbrev pub receive : Server → Option Bytes → Bytes × Option ℕ
receive s none = (s.buffer, none)
receive s (some d) = (memcpy s.buffer 0 (take buffer_size d), some (min buffer_size (length d)))

-- Where the type of the query is read, given the length of the encoded name.
abbrev pub after_name : Option ℕ → ℕ
after_name none = 11
after_name (some n) = 12 + n

module _ (dn_expand : Bytes → Option ℕ → Bytes → Option ℕ × Bytes)
    (inet_aton : Bytes → InAddr) where
  -- From `memset` to `sendto`.
  unfoldable pub answer : Server → Bytes → Server × Outcome
  answer s name =
      let id = htons (dns_header s.buffer).id in
      let p =
        packet id name s.t_type s.t_class
          (prepare_reply s.t_type (s_addr (inet_aton s.spoof_addr))) in
      if leb (length p) buffer_size
      then (record s { buffer = p ++ replicate (buffer_size - length p) 0 }, sent p)
      else (s, out_of_bounds)

  -- What follows the class of the query.
  unfoldable pub dispatch : Server → Bytes → Server × Outcome
  dispatch s name =
      if not (s.t_class == ns_c_in)
      then (s, ignored)
      else if is_query (dns_header s.buffer)
      then answer s name
      else (s, ignored)

  -- One round of `run`.
  unfoldable pub serve : Server → Option Bytes → Server × Outcome
  serve s received =
      let (buffer, nbytes) = receive s received in
      let (name_len, name) = dn_expand buffer nbytes s.name in
      elim (get2byte (drop (after_name name_len) buffer)) [
        | none ↦ (s, out_of_bounds)
        | some (t_type, q) ↦ elim (get2byte q) [
          | none ↦ (s, out_of_bounds)
          | some (t_class, _) ↦
              dispatch
                (record s { buffer = buffer; t_type = t_type; t_class = t_class; name = name }) name
        ]
      ]

  -- The loop over what arrives, up to an access outside the buffer.
  unfoldable pub run : Server → List (Option Bytes) → Server × List Outcome
  run s [] = (s, [])
  run s (d ∷ ds) =
      let (s', o) = serve s d in
      let rest = run s' ds in
      elim o [ out_of_bounds ↦ (s', out_of_bounds ∷ []) | other ↦ (rest.0, other ∷ rest.1) ]
