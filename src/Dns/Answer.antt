-- ===== src/Dns/Answer.antt =====
-- Whatever the name and the type of the query, `packet` is a DNS message that a reader of RFC 1035
-- takes apart into the question asked and the spoofed records.
use faster_config.Base.{
  ℕ, ◌+◌, ◌*◌, ◌^◌, ◌<◌, Option, none, some, List, [], ◌∷◌, ◌++◌, append-nil, append_assoc, Bytes,
  field, ◌>>=◌, length, All, length-append, ◌≡◌, refl, sym, ap, ◌∙◌, ◌≢◌, arith,
}
use mathlib.Core.Option
use faster_config.Wire.{put2byte}
use faster_config.Name.Labels.{split, IsLabel, wire_name, read_labels-wire_name}
use faster_config.Name.Encode.{encode_domain-wire_name, length-lt-wire_name}
use faster_config.Dns.Reply.{
  Reply, prepare_reply, prepare_dns_reply_a, prepare_dns_reply_mx, prepare_dns_reply_wins,
  prepare_dns_reply_srv, prepare_dns_reply_default,
}
use faster_config.Dns.Server.{
  packet, encode_spoof_dns_header, encode_query_type_and_class, put_block_data,
}
use faster_config.Dns.Reader.{Record, Message, read_message, read_sections}
use faster_config.Dns.Sections.{expected, sections_of, prepare_reply-sections}

pub packet-append :
    (id : ℕ) (name : Bytes) (t c : ℕ) (r : Reply)
    → packet id name t c r
      ≡ encode_spoof_dns_header id r
        ++ (wire_name (split name) ++ (put2byte (put2byte [] t) c ++ r.reply_data))
unfolding packet encode_query_type_and_class put_block_data put2byte
packet-append id name t c r =
    rw (encode_domain-wire_name (encode_spoof_dns_header id r) name) (simp append_assoc)

abbrev IsWord : ℕ → Type 0
IsWord n = n < 2 ^ 16

word_eq : (n : ℕ) → IsWord n → field n 8 8 * 2 ^ 8 + field n 0 8 ≡ n
word_eq n h = omega arith

-- The message of a packet, from the sections of its reply.
pub message_of : ℕ → Bytes → ℕ → ℕ → List Record × List Record × List Record → Message
message_of i name t c s = record {
  id = i;
  flags = 0x8400;
  qname = split name;
  qtype = t;
  qclass = c;
  answers = s.0;
  authorities = s.1;
  additionals = s.2;
}

read_message-packet :
    (id : ℕ) (name : Bytes) (t c : ℕ) (r : Reply)
    → IsWord id
    → IsWord t
    → IsWord c
    → IsWord r.n_answ
    → IsWord r.n_auth
    → IsWord r.n_addi
    → All IsLabel (split name)
    → read_message (packet id name t c r) ≡ Option.map (message_of id name t c) (sections_of r)
unfolding read_message encode_spoof_dns_header put2byte message_of
read_message-packet id name t c r hid ht hc h1 h2 h3 labels =
    let rest = put2byte (put2byte [] t) c ++ r.reply_data in
    rw
      (
        packet-append id name t c r,
        read_labels-wire_name (split name) rest (length (wire_name (split name) ++ rest))
            (omega (
              arith,
              length-lt-wire_name (split name),
              length-append (wire_name (split name)) rest,
            ))
            labels,
      )
      (rw
        (
          word_eq id hid,
          word_eq t ht,
          word_eq c hc,
          word_eq r.n_answ h1,
          word_eq r.n_auth h2,
          word_eq r.n_addi h3,
        )
        (bind-map (sections_of r)))
  where
    bind-map :
        (o : Option (List Record × List Record × List Record))
        → (o >>= λ x. some (message_of id name t c x)) ≡ Option.map (message_of id name t c) o
    bind-map none = refl
    bind-map (some x) = refl

counts :
    (t : ℕ) (addr : Bytes)
    → let r = prepare_reply t addr in IsWord r.n_answ × IsWord r.n_auth × IsWord r.n_addi
unfolding prepare_reply prepare_dns_reply_a prepare_dns_reply_mx prepare_dns_reply_wins
    prepare_dns_reply_srv prepare_dns_reply_default
counts t addr = ground arith

-- The packet for a type other than WINS is a well-formed message: it reads back as the id and the
-- question of the query, with flags 0x8400 and the records that the type calls for, and no byte is
-- left over. The labels of the name have 1 to 63 octets, and the id and the type are 16-bit
-- values.
pub read_message-packet_prepare :
    (id : ℕ) (name : Bytes) (t x y z w : ℕ)
    → id < 2 ^ 16
    → t < 2 ^ 16
    → t ≢ 0xFF01
    → All IsLabel (split name)
    → read_message (packet id name t 1 (prepare_reply t (x ∷ y ∷ z ∷ w ∷ [])))
      ≡ some (message_of id name t 1 (expected t (x ∷ y ∷ z ∷ w ∷ [])))
read_message-packet_prepare id name t x y z w hid ht wins labels =
    let r = prepare_reply t (x ∷ y ∷ z ∷ w ∷ []) in
    let (h1, h2, h3) = counts t (x ∷ y ∷ z ∷ w ∷ []) in
    read_message-packet id name t 1 r hid ht (omega arith) h1 h2 h3 labels
    ∙ ap (Option.map (message_of id name t 1)) (prepare_reply-sections t x y z w wins)

-- What is made of a type without records.
abbrev no_records : Reply
no_records = record { reply_data = []; n_answ = 0; n_auth = 0; n_addi = 0 }

no_records-sections : sections_of no_records ≡ some ([], [], [])
unfolding read_sections
no_records-sections = refl

-- The packet for a WINS query is a well-formed message that announces no record, with the id and the
-- question of the query, and sixteen octets behind it: a reader that follows the counts finds no
-- answer. The labels of the name have 1 to 63 octets, and the id is a 16-bit value.
pub read_message-packet_wins :
    (id : ℕ) (name : Bytes) (x y z w : ℕ)
    → id < 2 ^ 16
    → All IsLabel (split name)
    → (shown rest : Bytes) × (packet id name 0xFF01 1 (prepare_reply 0xFF01 (x ∷ y ∷ z ∷ w ∷ []))
        ≡ shown ++ rest)
      × (length rest ≡ 16)
      × (read_message shown ≡ some (message_of id name 0xFF01 1 ([], [], [])))
unfolding prepare_reply prepare_dns_reply_wins encode_spoof_dns_header
read_message-packet_wins id name x y z w hid labels =
    let r = prepare_reply 0xFF01 (x ∷ y ∷ z ∷ w ∷ []) in
    let header : Bytes = encode_spoof_dns_header id no_records in
    let wire : Bytes = wire_name (split name) in
    let words : Bytes = put2byte (put2byte [] 0xFF01) 1 in
    let whole : packet id name 0xFF01 1 r ≡ packet id name 0xFF01 1 no_records ++ r.reply_data =
      packet-append id name 0xFF01 1 r
      ∙ sym (
          ap (λ p. p ++ r.reply_data) (packet-append id name 0xFF01 1 no_records)
          ∙ ap (λ q. (header ++ (wire ++ q)) ++ r.reply_data) (append-nil words)
          ∙ append_assoc header (wire ++ words) r.reply_data
          ∙ ap (λ q. header ++ q) (append_assoc wire words r.reply_data)) in
    let read =
      read_message-packet id name 0xFF01 1 no_records hid (omega arith) (omega arith) (omega arith)
        (omega arith) (omega arith) labels
      ∙ ap (Option.map (message_of id name 0xFF01 1)) no_records-sections in
    (packet id name 0xFF01 1 no_records, r.reply_data, whole, refl, read)
