-- ===== src/Dns/Service.antt =====
-- From a query on the wire to the reply that its sender reads.
use faster_config.Base.{
  ℕ, ◌+◌, ◌*◌, ◌^◌, ◌≤◌, ◌<◌, Option, some, [], ◌++◌, append_assoc, Bytes, Bool, true, ◌&&◌, ◌||◌,
  ◌==◌, leb, field, length, drop, All, length-append, drop-length-append, drop-drop, memcpy-zero,
  take_all, ◌≡◌, refl, sym, ap, ◌∙◌, ◌≢◌, arith,
}
use faster_config.Wire.{get2byte, put2byte}
use faster_config.Name.Labels.{split, IsLabel, wire_name}
use faster_config.Dns.Types.{dns_header, htons}
use faster_config.Dns.Reply.{InAddr, s_addr, prepare_reply}
use faster_config.Dns.Server.{
  Server, sent, buffer_size, packet, is_query, answer, dispatch, receive, serve,
}
use faster_config.Dns.Reader.{read_message}
use faster_config.Dns.Sections.{expected}
use faster_config.Dns.Answer.{message_of, read_message-packet_prepare}
use faster_config.Dns.Loop.{IsFull, answer-sent}

abbrev pub six_words : ℕ → ℕ → ℕ → ℕ → ℕ → ℕ → Bytes
six_words i f q n s r =
    put2byte (put2byte (put2byte (put2byte (put2byte (put2byte [] i) f) q) n) s) r

-- A query for `name` and type `t` in class IN, with anything behind the question.
abbrev pub query_of : ℕ → ℕ → ℕ → ℕ → Bytes → ℕ → Bytes → Bytes
query_of id flags ns ar name t extra =
    six_words id flags 1 0 ns ar
    ++ (wire_name (split name) ++ (put2byte (put2byte [] t) 1 ++ extra))

-- Letters, digits, hyphens, underscores and dots, which `dn_expand` leaves as they are.
abbrev pub is_host : ℕ → Bool
is_host c =
    (leb b'a' c && leb c b'z')
    || (leb b'A' c && leb c b'Z')
    || (leb b'0' c && leb c b'9')
    || c == b'-'
    || c == b'_'
    || c == b'.'

-- What is assumed of `dn_expand`: behind twelve bytes of header, and within the bytes received, it
-- reads a name that is not compressed and has at most 253 characters, the longest that RFC 1035
-- allows, and returns the octets that the name takes.
abbrev pub ExpandsPlain : (Bytes → Option ℕ → Bytes → Option ℕ × Bytes) → Type 0
ExpandsPlain dn_expand =
    (header name tail dst : Bytes) (n : ℕ)
    → length header ≡ 12
    → All IsLabel (split name)
    → All (λ c. is_host c ≡ true) name
    → length name ≤ 253
    → 12 + length (wire_name (split name)) ≤ n
    → dn_expand (header ++ (wire_name (split name) ++ tail)) (some n) dst
      ≡ (some (length (wire_name (split name))), name)

pub record IsQuery (id flags ns ar : ℕ) (name : Bytes) (t : ℕ) (extra : Bytes) : Type 0 where
  pub id_word : id < 2 ^ 16
  pub flags_word : flags < 2 ^ 16
  pub query : field flags 15 1 ≡ 0
  pub standard : field flags 11 4 ≡ 0
  pub t_word : t < 2 ^ 16
  pub not_wins : t ≢ 0xFF01
  pub short : length name ≤ 253
  pub extra_fits : length (query_of id flags ns ar name t extra) ≤ buffer_size

header_of_query :
    (id flags ns ar : ℕ) (rest : Bytes)
    → id < 2 ^ 16
    → flags < 2 ^ 16
    → field flags 15 1 ≡ 0
    → field flags 11 4 ≡ 0
    → (is_query (dns_header (six_words id flags 1 0 ns ar ++ rest)) ≡ true)
      × (htons (dns_header (six_words id flags 1 0 ns ar ++ rest)).id ≡ id)
unfolding put2byte dns_header is_query
header_of_query id flags ns ar rest h1 h2 h3 h4 = (ground arith, omega arith)

length-six_words : (i f q n s r : ℕ) → length (six_words i f q n s r) ≡ 12
unfolding put2byte
length-six_words i f q n s r = refl

get2byte-put2byte :
    (n : ℕ) (rest : Bytes) → n < 2 ^ 16 → get2byte (put2byte [] n ++ rest) ≡ some (n, rest)
unfolding get2byte put2byte
get2byte-put2byte n rest h = let e : field n 8 8 * 2 ^ 8 + field n 0 8 ≡ n = omega arith in rw e

-- A query behind which `left` is still in the buffer, cut where the server cuts it.
query_of-append :
    (id flags ns ar : ℕ) (name : Bytes) (t : ℕ) (extra left : Bytes)
    → query_of id flags ns ar name t extra ++ left
      ≡ six_words id flags 1 0 ns ar
        ++ (wire_name (split name) ++ (put2byte [] t ++ (put2byte [] 1 ++ (extra ++ left))))
unfolding put2byte
query_of-append id flags ns ar name t extra left = simp append_assoc

length-query_of :
    (id flags ns ar : ℕ) (name : Bytes) (t : ℕ) (extra : Bytes)
    → 12 + length (wire_name (split name)) ≤ length (query_of id flags ns ar name t extra)
unfolding put2byte
length-query_of id flags ns ar name t extra =
    omega (arith, length-append (wire_name (split name)) (put2byte (put2byte [] t) 1 ++ extra))

drop_header_name :
    (id flags ns ar : ℕ) (w rest : Bytes)
    → drop (12 + length w) (six_words id flags 1 0 ns ar ++ (w ++ rest)) ≡ rest
unfolding put2byte
drop_header_name id flags ns ar w rest =
    let e =
      drop-drop 12 (length w) (12 + length w) (six_words id flags 1 0 ns ar ++ (w ++ rest)) refl in
    sym e ∙ drop-length-append w rest

module _ (dn_expand : Bytes → Option ℕ → Bytes → Option ℕ × Bytes)
    (inet_aton : Bytes → InAddr) where
  -- A round in which every read lies in the buffer.
  serve-dispatch :
      (s : Server) (d : Option Bytes) (buffer : Bytes) (nbytes : Option ℕ) (n : ℕ)
      (name q1 q2 : Bytes) (t c : ℕ)
      → receive s d ≡ (buffer, nbytes)
      → dn_expand buffer nbytes s.name ≡ (some n, name)
      → get2byte (drop (12 + n) buffer) ≡ some (t, q1)
      → get2byte q1 ≡ some (c, q2)
      → serve dn_expand inet_aton s d
        ≡ dispatch dn_expand inet_aton
            (record s { buffer = buffer; t_type = t; t_class = c; name = name })
            name
  unfolding serve
  serve-dispatch s d buffer nbytes n name q1 q2 t c e1 e2 e3 e4 =
      rw (e1, serve) (rw (e2, serve) (rw (e3, serve) (rw (e4, serve) (rw (e1, e2)))))

  -- A query whose name leaves room is answered.
  dispatch-sent :
      (s : Server) (name : Bytes)
      → is_query (dns_header s.buffer) ≡ true
      → s.t_class ≡ 1
      → length name ≤ 960
      → dispatch dn_expand inet_aton s name ≡ (
        (answer dn_expand inet_aton s name).0,
        sent (
            packet
              (htons (dns_header s.buffer).id)
              name
              s.t_type
              s.t_class
              (prepare_reply s.t_type (s_addr (inet_aton s.spoof_addr)))),
      )
  unfolding dispatch
  dispatch-sent s name h c n = let e = answer-sent dn_expand inet_aton s name n in ground arith

module _ (dn_expand : Bytes → Option ℕ → Bytes → Option ℕ × Bytes) (inet_aton : Bytes → InAddr)
    (expands : ExpandsPlain dn_expand) where
  -- A query for a host name, of any type but WINS, is answered in the round that receives it, and
  -- the reply reads as the id and the question of the query with the records that the type calls
  -- for, at the address that `inet_aton` makes of the spoofed one. The query has QR and OPCODE 0,
  -- one question in class IN and no answer, and fits the buffer of 1024 bytes; the name has at
  -- most 253 characters that `dn_expand` does not escape, in labels of 1 to 63. Assumed is that
  -- `dn_expand` reads plain names of at most 253 characters.
  pub serve-query_of :
      (s : Server) (id flags ns ar : ℕ) (name : Bytes) (t : ℕ) (extra : Bytes)
      → IsFull s
      → IsQuery id flags ns ar name t extra
      → All IsLabel (split name)
      → All (λ c. is_host c ≡ true) name
      → (s' : Server) × (p : Bytes) × (serve dn_expand inet_aton s
            (some (query_of id flags ns ar name t extra))
          ≡ (s', sent p))
        × (read_message p
            ≡ some (message_of id name t 1 (expected t (s_addr (inet_aton s.spoof_addr)))))
  serve-query_of s id flags ns ar name t extra full q labels host =
      let ask = query_of id flags ns ar name t extra in
      let left = drop (length ask) s.buffer in
      let ip = inet_aton s.spoof_addr in
      let w = wire_name (split name) in
      let words = six_words id flags 1 0 ns ar in
      let class_on = put2byte [] 1 ++ (extra ++ left) in
      let buffer = words ++ (w ++ (put2byte [] t ++ class_on)) in
      let received : receive s (some ask) ≡ (buffer, some (length ask)) =
        rw
          (
            take_all buffer_size ask q.extra_fits,
            memcpy-zero s.buffer ask (omega (arith, full, q.extra_fits)),
            query_of-append id flags ns ar name t extra left,
          )
          (ap (λ k. (buffer, some k)) (omega (arith, q.extra_fits))) in
      let known =
        expands words name (put2byte [] t ++ class_on) s.name (length ask)
          (length-six_words id flags 1 0 ns ar) labels host q.short
          (length-query_of id flags ns ar name t extra) in
      let typed : get2byte (drop (12 + length w) buffer) ≡ some (t, class_on) =
        rw (drop_header_name id flags ns ar w (put2byte [] t ++ class_on))
          (get2byte-put2byte t class_on q.t_word) in
      let classed = get2byte-put2byte 1 (extra ++ left) (omega arith) in
      let asked : Server = record s { buffer = buffer; t_type = t; t_class = 1; name = name } in
      let (plain, same) =
        header_of_query id flags ns ar (w ++ (put2byte [] t ++ class_on)) q.id_word q.flags_word
          q.query q.standard in
      let p = packet id name t 1 (prepare_reply t (s_addr ip)) in
      let short : length name ≤ 960 = omega (arith, q.short) in
      let done : dispatch dn_expand inet_aton asked name
          ≡ ((answer dn_expand inet_aton asked name).0, sent p) =
        rw same at (dispatch-sent dn_expand inet_aton asked name plain refl short) in
      (
        (answer dn_expand inet_aton asked name).0,
        p,
        serve-dispatch dn_expand inet_aton s (some ask) buffer (some (length ask)) (length w) name
              class_on (extra ++ left) t 1 received known typed classed
            ∙ done,
        read_message-packet_prepare id name t ip.byte0 ip.byte1 ip.byte2 ip.byte3 q.id_word q.t_word
            q.not_wins labels,
      )
