-- ===== src/Message.antt =====
-- src/message.h and src/message.cpp: the header of a message and the helpers that read and write it.
-- A `const char*&` is the bytes left, a `char*&` the bytes written; `none` is a read past the end.
pub mod Print
pub mod Words
pub mod Query
pub mod Response
use faster_config.Base.{
  ℕ, ◌+◌, ◌*◌, ◌/◌, ◌%◌, ◌^◌, Option, none, some, [], ◌∷◌, ◌++◌, Bytes, field, ◌>>=◌,
}

-- `struct DNSHeader`.
pub record Header : Type 0 where
  pub trans_id : ℕ
  pub flags : ℕ
  pub qdcount : ℕ
  pub ancount : ℕ
  pub nscount : ℕ
  pub arcount : ℕ

-- `struct DNSHeaderFlags`, the fields that `decode_hdr` sets.
pub record HeaderFlags : Type 0 where
  pub qr : ℕ
  pub opcode : ℕ
  pub aa : ℕ
  pub tc : ℕ
  pub rd : ℕ
  pub ra : ℕ

-- `value & mask`, for the mask of `width` ones at bit `low`.
abbrev pub masked : ℕ → ℕ → ℕ → ℕ
masked value low width = field value low width * 2 ^ low

-- `Message::get16bits`.
unfoldable pub get16bits : Bytes → Option (ℕ × Bytes)
get16bits (a ∷ b ∷ rest) = some (a * 2 ^ 8 + b, rest)
get16bits _ = none

-- `Message::put16bits`.
unfoldable pub put16bits : Bytes → ℕ → Bytes
put16bits buffer value = buffer ++ masked value 8 8 / 2 ^ 8 ∷ masked value 0 8 ∷ []

-- `Message::put32bits`.
unfoldable pub put32bits : Bytes → ℕ → Bytes
put32bits buffer value =
    buffer
    ++ masked value 24 8 / 2 ^ 24
      ∷ masked value 16 8 / 2 ^ 16
      ∷ masked value 8 8 / 2 ^ 16
      ∷ masked value 0 8 / 2 ^ 16
      ∷ []

-- The masks against the flags, each assigned to a bit field of `width` bits.
unfoldable pub flags_of : ℕ → HeaderFlags
flags_of flags = record {
  qr = masked flags 15 1 % 2 ^ 1;
  opcode = masked flags 11 4 % 2 ^ 4;
  aa = masked flags 10 1 % 2 ^ 1;
  tc = masked flags 9 1 % 2 ^ 1;
  rd = masked flags 8 1 % 2 ^ 1;
  ra = masked flags 15 1 % 2 ^ 1;
}

pub record Message : Type 0 where
  pub header : Header
  pub header_flags : HeaderFlags
  pub m_qr : ℕ
  pub m_opcode : ℕ

-- `Message::decode_hdr`.
unfoldable pub decode_hdr : Bytes → Option Message
unfolding get16bits
decode_hdr buffer = do
  (id, s1) ← get16bits buffer
  (flags, s2) ← get16bits s1
  (qd, s3) ← get16bits s2
  (an, s4) ← get16bits s3
  (ns, s5) ← get16bits s4
  (ar, _) ← get16bits s5
  some (record {
    header = record {
      trans_id = id;
      flags = flags;
      qdcount = qd;
      ancount = an;
      nscount = ns;
      arcount = ar;
    };
    header_flags = flags_of flags;
    m_qr = masked flags 15 1;
    m_opcode = masked flags 11 4;
  })

-- `Message::code_hdr`.
unfoldable pub code_hdr : Header → Bytes
unfolding put16bits
code_hdr h =
    let ids = put16bits [] h.trans_id in
    let flags = put16bits ids 0x8580 in
    let questions = put16bits flags 0x0001 in
    let answers = put16bits questions 0x0001 in
    let authorities = put16bits answers 0x0000 in put16bits authorities 0x0000
