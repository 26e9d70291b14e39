-- ===== src/Dns/Loop.antt =====
-- The loop of `run`: what it keeps, when it answers, and that its answers stay inside the buffer.
use faster_config.Base.{
  ℕ, ◌+◌, ◌-◌, ◌≤◌, Option, none, some, List, [], ◌∷◌, ◌++◌, Bytes, true, leb, le→leb, tests,
  Bool-cases, Option-cases, length, take, drop, replicate, length-append, length-replicate,
  length-memcpy, ◌≡◌, ◌∙◌, inl, inr, arith,
}
use faster_config.Wire.{get2byte, put2byte}
use faster_config.Name.Labels.{split, wire_name}
use faster_config.Name.Encode.{length-wire_name-split}
use faster_config.Dns.Types.{dns_header, htons}
use faster_config.Dns.Reply.{
  Reply, InAddr, s_addr, prepare_reply, prepare_dns_reply_a, prepare_dns_reply_mx,
  prepare_dns_reply_wins, prepare_dns_reply_srv, prepare_dns_reply_default,
}
use faster_config.Dns.Server.{
  Server, sent, buffer_size, packet, encode_spoof_dns_header, is_query, answer, dispatch, receive,
  after_name, serve, run,
}
use faster_config.Dns.Answer.{packet-append}

abbrev pub IsFull : Server → Type 0
IsFull s = length s.buffer ≡ buffer_size

length-reply : (t x y z w : ℕ) → length (prepare_reply t (x ∷ y ∷ z ∷ w ∷ [])).reply_data ≤ 46
unfolding prepare_reply prepare_dns_reply_a prepare_dns_reply_mx prepare_dns_reply_wins
    prepare_dns_reply_srv prepare_dns_reply_default
length-reply t x y z w = ground arith

length-packet :
    (id : ℕ) (name : Bytes) (t c : ℕ) (r : Reply)
    → length (packet id name t c r) ≡ length name + 18 + length r.reply_data
unfolding encode_spoof_dns_header put2byte
length-packet id name t c r =
    let tail = put2byte (put2byte [] t) c ++ r.reply_data in
    rw (packet-append id name t c r)
      (omega (arith, length-append (wire_name (split name)) tail, length-wire_name-split name))

receive-IsFull : (s : Server) (d : Option Bytes) → IsFull s → length (receive s d).0 ≡ buffer_size
receive-IsFull s none h = h
receive-IsFull s (some d) h = length-memcpy s.buffer 0 (take buffer_size d) ∙ h

module _ (dn_expand : Bytes → Option ℕ → Bytes → Option ℕ × Bytes)
    (inet_aton : Bytes → InAddr) where
  answer-IsFull :
      (s : Server) (name : Bytes) → IsFull s → IsFull (answer dn_expand inet_aton s name).0
  unfolding answer
  answer-IsFull s name h =
      let id = htons (dns_header s.buffer).id in
      let p =
        packet id name s.t_type s.t_class
          (prepare_reply s.t_type (s_addr (inet_aton s.spoof_addr))) in
      elim (Bool-cases (leb (length p) buffer_size)) [
        | inl e ↦ rw e (
            omega (
              tests,
              e,
              length-append p (replicate {A = ℕ} (buffer_size - length p) 0),
              length-replicate {A = ℕ} (buffer_size - length p) 0,
            ))
        | inr e ↦ rw e h
      ]

  -- A name that leaves room for the rest of the packet never makes `run` write past the buffer.
  pub answer-sent :
      (s : Server) (name : Bytes)
      → length name ≤ 960
      → (answer dn_expand inet_aton s name).1
        ≡ sent (
            packet
              (htons (dns_header s.buffer).id)
              name
              s.t_type
              s.t_class
              (prepare_reply s.t_type (s_addr (inet_aton s.spoof_addr))))
  unfolding answer
  answer-sent s name h =
      let ip = inet_aton s.spoof_addr in
      let id = htons (dns_header s.buffer).id in
      let r = prepare_reply s.t_type (s_addr ip) in
      let fits : leb (length (packet id name s.t_type s.t_class r)) buffer_size ≡ true =
        le→leb _ _ (
          omega (
            arith,
            length-packet id name s.t_type s.t_class r,
            length-reply s.t_type ip.byte0 ip.byte1 ip.byte2 ip.byte3,
          )) in
      rw fits

  dispatch-IsFull :
      (s : Server) (name : Bytes) → IsFull s → IsFull (dispatch dn_expand inet_aton s name).0
  unfolding dispatch
  dispatch-IsFull s name h = ground (arith, answer-IsFull s name h)

  -- `buffer` keeps its size through a round, whatever arrives.
  pub serve-IsFull :
      (s : Server) (d : Option Bytes) → IsFull s → IsFull (serve dn_expand inet_aton s d).0
  unfolding serve
  serve-IsFull s d h =
      let (buffer, nbytes) = receive s d in
      let (name_len, name) = dn_expand buffer nbytes s.name in
      elim (Option-cases (get2byte (drop (after_name name_len) buffer))) [
        | inl e ↦ rw (e, serve) h
        | inr ((t, q), e) ↦ elim (Option-cases (get2byte q)) [
          | inl f ↦ rw (e, serve) (rw (f, serve) h)
          | inr ((c, q'), f) ↦
              rw (e, serve)
                (rw (f, serve)
                  (dispatch-IsFull
                    (record s { buffer = buffer; t_type = t; t_class = c; name = name }) name
                    (receive-IsFull s d h)))
        ]
      ]

  -- A buffer of 1024 bytes keeps this size through `run`, whatever datagrams and errors arrive, in
  -- whatever order.
  pub run-IsFull :
      (ds : List (Option Bytes)) (s : Server) → IsFull s → IsFull (run dn_expand inet_aton s ds).0
  unfolding run
  run-IsFull [] s h = h
  run-IsFull (d ∷ ds) s h =
      let first = serve-IsFull s d h in
      ground (arith, first, run-IsFull ds (serve dn_expand inet_aton s d).0 first)

  -- What a round sends, for the state in which the answer is made.
  abbrev pub packet_for : Server → Bytes → Bytes
  packet_for s name =
      packet (htons (dns_header s.buffer).id) name s.t_type s.t_class
        (prepare_reply s.t_type (s_addr (inet_aton s.spoof_addr)))

  pub dispatch-eq-sent :
      (s : Server) (name : Bytes) {s' : Server} {p : Bytes}
      → dispatch dn_expand inet_aton s name ≡ (s', sent p)
      → (is_query (dns_header s.buffer) ≡ true)
        × (s.t_class ≡ 1)
        × (s'.t_type ≡ s.t_type)
        × (p ≡ packet_for s name)
  unfolding dispatch answer
  dispatch-eq-sent s name h = ground arith

  -- If a round sends, what it received holds a header with QR and OPCODE 0, one question and no
  -- answer; and what it sends is the packet for the id of that header, the name from `dn_expand`,
  -- the type that was read and class IN.
  pub serve-sent :
      (s : Server) (d : Option Bytes) {s' : Server} {p : Bytes}
      → serve dn_expand inet_aton s d ≡ (s', sent p)
      → let buffer = (receive s d).0 in
        let name = (dn_expand buffer (receive s d).1 s.name).1 in
        (is_query (dns_header buffer) ≡ true)
        × (p
            ≡ packet
                (htons (dns_header buffer).id)
                name
                s'.t_type
                1
                (prepare_reply s'.t_type (s_addr (inet_aton s.spoof_addr))))
  unfolding serve
  serve-sent s d {s'} {p} h =
      let (buffer, nbytes) = receive s d in
      let (name_len, name) = dn_expand buffer nbytes s.name in
      elim (Option-cases (get2byte (drop (after_name name_len) buffer))) [
        | inl e ↦ ground arith
        | inr ((t, q), e) ↦ elim (Option-cases (get2byte q)) [
          | inl f ↦ ground arith
          | inr ((c, q'), f) ↦
              let asked : Server = record s {
                buffer = buffer;
                t_type = t;
                t_class = c;
                name = name;
              } in
              let inv = dispatch-eq-sent asked name {s' = s'} {p = p} in ground (arith, inv)
        ]
      ]
