-- ===== src/Lookup/Receive/Spoofed.antt =====
-- src/DNSLookup.cpp and src/dnsserver.cpp together: the client at the replies of the server.
use faster_config.Base.{
  ℕ, Option, none, some, List, [], ◌∷◌, Bytes, Bool, false, length, take, replicate, memcpy, All,
  memcpy-zero, length-memcpy, length-take, length-replicate, ◌≡◌, refl, ap, ◌∙◌, arith,
}
use faster_config.Wire.{put2byte}
use faster_config.Dns.Reply.{Reply, InAddr}
use faster_config.Dns.Server.{Server, sent, encode_spoof_dns_header, packet, serve}
use faster_config.Dns.Answer.{packet-append}
use faster_config.Dns.Loop.{serve-sent}
use faster_config.Lookup.Receive.{waiting, recvbuf_size, is_reply, receive_loop, recv_dns_response}

packet-flags :
    (id : ℕ) (name : Bytes) (t c : ℕ) (r : Reply)
    → (x : ℕ) × (y : ℕ) × (rest : Bytes) × (packet id name t c r ≡ x ∷ y ∷ 0x84 ∷ 0 ∷ rest)
unfolding encode_spoof_dns_header put2byte
packet-flags id name t c r = (_, _, _, packet-append id name t c r)

-- No header of the server passes the test of the client: it has AA set and RD not.
is_reply-spoofed :
    (proc_id x y : ℕ) (rest buf : Bytes)
    → length buf ≡ recvbuf_size
    → is_reply proc_id (memcpy buf 0 (take recvbuf_size (x ∷ y ∷ 0x84 ∷ 0 ∷ rest))) ≡ false
unfolding is_reply
is_reply-spoofed proc_id x y rest buf len =
    let src : Bytes = take recvbuf_size (x ∷ y ∷ 0x84 ∷ 0 ∷ rest) in
    let cut = length-take recvbuf_size (x ∷ y ∷ 0x84 ∷ 0 ∷ rest) in
    let front = memcpy-zero buf src (omega (arith, cut, len)) in rw front (ground arith)

module _ (dn_expand : Bytes → Option ℕ → Bytes → Option ℕ × Bytes)
    (inet_aton : Bytes → InAddr) where
  -- What the client receives is an error, or what a round of the server has sent.
  abbrev pub FromServer : Option Bytes → Type 0
  FromServer none = Unit
  FromServer (some d) =
      (s : Server) × (query : Option Bytes) × (s' : Server) × (serve dn_expand inet_aton s query
        ≡ (s', sent d))

  module _ (fuel ulong_size : ℕ) (wants_ips wants_cnames : Bool) where
    receive_loop-spoofed :
        (proc_id : ℕ) (buf : Bytes) (ds : List (Option Bytes))
        → length buf ≡ recvbuf_size
        → is_reply proc_id buf ≡ false
        → All FromServer ds
        → receive_loop fuel ulong_size wants_ips wants_cnames proc_id buf ds ≡ waiting
    unfolding receive_loop
    receive_loop-spoofed proc_id buf [] len none_yet h = refl
    receive_loop-spoofed proc_id buf (none ∷ ds) len none_yet (h, hs) =
        rw none_yet (receive_loop-spoofed proc_id buf ds len none_yet hs)
    receive_loop-spoofed proc_id buf (some d ∷ ds) len none_yet ((s, query, s', e), hs) =
        let (asked, same) = serve-sent dn_expand inet_aton s query {s' = s'} {p = d} e in
        let (x, y, rest, shape) = packet-flags _ _ _ _ _ in
        let test : is_reply proc_id (memcpy buf 0 (take recvbuf_size d)) ≡ false =
          ap (λ p. is_reply proc_id (memcpy buf 0 (take recvbuf_size p))) (same ∙ shape)
          ∙ is_reply-spoofed proc_id x y rest buf len in
        rw test (
          receive_loop-spoofed proc_id (memcpy buf 0 (take recvbuf_size d)) ds
            (length-memcpy buf 0 (take recvbuf_size d) ∙ len) test hs)

    -- The client of the program never accepts a reply of the server of the program: whatever rounds
    -- of the server the datagrams come from, with errors in between, it goes on waiting.
    pub recv_dns_response-spoofed :
        (proc_id : ℕ) (ds : List (Option Bytes))
        → All FromServer ds
        → recv_dns_response fuel ulong_size wants_ips wants_cnames proc_id ds ≡ waiting
    unfolding recv_dns_response is_reply
    recv_dns_response-spoofed proc_id ds h =
        receive_loop-spoofed proc_id (replicate recvbuf_size 0) ds
          (length-replicate {A = ℕ} recvbuf_size 0) (ground arith) h
