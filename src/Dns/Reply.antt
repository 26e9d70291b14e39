-- ===== src/Dns/Reply.antt =====
-- src/dnsserver.cpp: the `prepare_dns_reply_*` functions. An array from `calloc` is a list of
-- zeros, and each `memcpy` overwrites a part of it. The counters start at 0 in `run`, so a function
-- returns what it adds to them. `addr` is `reply_addr.s_addr` as it lies in memory.
use faster_config.Base.{
  ℕ, ◌+◌, ◌%◌, List, [], ◌∷◌, ◌++◌, Bytes, codes, ◌||◌, ◌==◌, if◌then◌else◌, take, replicate,
  memcpy,
}
use faster_config.Dns.Types.{ns_code, a, ptr, mx, txt, aaaa, srv, wins}

-- `struct in_addr`: the four bytes of `s_addr`, in the order of the network.
pub record InAddr : Type 0 where
  pub byte0 : ℕ
  pub byte1 : ℕ
  pub byte2 : ℕ
  pub byte3 : ℕ

abbrev pub s_addr : InAddr → Bytes
s_addr r = r.byte0 ∷ r.byte1 ∷ r.byte2 ∷ r.byte3 ∷ []

pub record Reply : Type 0 where
  pub reply_data : Bytes
  pub n_answ : ℕ
  pub n_auth : ℕ
  pub n_addi : ℕ

-- `memcpy`s one after another.
abbrev pub fill : Bytes → List (ℕ × Bytes) → Bytes
fill d [] = d
fill d ((off, src) ∷ rest) = fill (memcpy d off src) rest

-- `htonl(3600)` in memory.
abbrev pub dns_ttl : Bytes
dns_ttl = 0x00 ∷ 0x00 ∷ 0x0e ∷ 0x10 ∷ []

abbrev pub two : ℕ → ℕ → Bytes
two x y = x ∷ y ∷ []

abbrev pub mail_name : Bytes
mail_name = 0x04 ∷ codes "mail" ++ two 0xc0 0x0c

abbrev pub srv_label : Bytes
srv_label = 0x03 ∷ codes "srv"

unfoldable pub prepare_dns_reply_a : Bytes → Reply
prepare_dns_reply_a addr = record {
  reply_data = fill (replicate 16 0) (
      (0, two 0xc0 0x0c)
      ∷ (2, two 0x00 0x01)
      ∷ (4, two 0x00 0x01)
      ∷ (6, dns_ttl)
      ∷ (10, two 0x00 0x04)
      ∷ (12, take 4 addr)
      ∷ []);
  n_answ = 1;
  n_auth = 0;
  n_addi = 0;
}

unfoldable pub prepare_dns_reply_mx : Bytes → Reply
prepare_dns_reply_mx addr = record {
  reply_data = fill (replicate 42 0) (
      (0, two 0xc0 0x0c)
      ∷ (2, two 0x00 0x0f)
      ∷ (4, two 0x00 0x01)
      ∷ (6, dns_ttl)
      ∷ (10, two 0x00 0x09)
      ∷ (12, two 0x00 0x0a)
      ∷ (14, mail_name)
      ∷ (21, mail_name)
      ∷ (28, two 0x00 0x01)
      ∷ (30, two 0x00 0x01)
      ∷ (32, dns_ttl)
      ∷ (36, two 0x00 0x04)
      ∷ (38, take 4 addr)
      ∷ []);
  n_answ = 1;
  n_auth = 0;
  n_addi = 1;
}

-- No counter is raised here.
unfoldable pub prepare_dns_reply_wins : Bytes → Reply
prepare_dns_reply_wins addr = record {
  reply_data = fill (replicate 16 0) (
      (0, two 0xc0 0x0c)
      ∷ (2, two 0xff 0x01)
      ∷ (4, two 0x00 0x01)
      ∷ (6, dns_ttl)
      ∷ (10, two 0x00 0x04)
      ∷ (12, take 4 addr)
      ∷ []);
  n_answ = 0;
  n_auth = 0;
  n_addi = 0;
}

unfoldable pub prepare_dns_reply_srv : Bytes → ℕ → Reply
prepare_dns_reply_srv addr dn_offset =
    let tgtoffset = two 0xc0 ((12 + dn_offset) % 256) in
    record {
      reply_data = fill (replicate 44 0) (
          (0, two 0xc0 0x0c)
          ∷ (2, two 0x00 0x21)
          ∷ (4, two 0x00 0x01)
          ∷ (6, dns_ttl)
          ∷ (10, two 0x00 0x0c)
          ∷ (12, two 0x00 0x00)
          ∷ (14, two 0x00 0x00)
          ∷ (16, two 0x08 0x00)
          ∷ (18, srv_label)
          ∷ (22, tgtoffset)
          ∷ (24, srv_label)
          ∷ (28, tgtoffset)
          ∷ (30, two 0x00 0x01)
          ∷ (32, two 0x00 0x01)
          ∷ (34, dns_ttl)
          ∷ (38, two 0x00 0x04)
          ∷ (40, take 4 addr)
          ∷ []);
      n_answ = 1;
      n_auth = 0;
      n_addi = 1;
    }

unfoldable pub prepare_dns_reply_default : Reply
prepare_dns_reply_default = record {
  reply_data = fill (replicate 46 0) (
      (0, two 0xc0 0x0c)
      ∷ (2, two 0x00 0x06)
      ∷ (4, two 0x00 0x01)
      ∷ (6, dns_ttl)
      ∷ (10, two 0x00 0x22)
      ∷ (12, 0x03 ∷ codes "ns1")
      ∷ (16, two 0xc0 0x0c)
      ∷ (18, 0x05 ∷ codes "abuse")
      ∷ (24, two 0xc0 0x0c)
      ∷ (26, two 0x51 0x79 ++ two 0x57 0xf5)
      ∷ (30, two 0x00 0x00 ++ two 0x0e 0x10)
      ∷ (34, two 0x00 0x00 ++ two 0x02 0x58)
      ∷ (38, two 0x00 0x09 ++ two 0x3a 0x80)
      ∷ (42, two 0x00 0x00 ++ two 0x00 0x3c)
      ∷ []);
  n_answ = 0;
  n_auth = 1;
  n_addi = 0;
}

-- The `switch` on the type of the query.
unfoldable pub prepare_reply : ℕ → Bytes → Reply
unfolding ns_code
prepare_reply t_type addr =
    if t_type == ns_code txt
      || t_type == ns_code ptr
      || t_type == ns_code aaaa
      || t_type == ns_code a
    then prepare_dns_reply_a addr
    else if t_type == ns_code mx
    then prepare_dns_reply_mx addr
    else if t_type == ns_code wins
    then prepare_dns_reply_wins addr
    else if t_type == ns_code srv
    then prepare_dns_reply_srv addr 0
    else prepare_dns_reply_default
