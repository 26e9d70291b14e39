-- ===== src/Resolver/Answers.antt =====
-- src/query.cpp, src/resolver.cpp and src/response.cpp together: a query is decoded, resolved, and
-- coded as a response.
use faster_config.Base.{
  ℕ, ◌+◌, ◌*◌, ◌/◌, ◌^◌, ◌<◌, some, [], ◌∷◌, ◌++◌, Bytes, ==_iff, length, All, ◌≡◌, refl, ◌≢◌,
  arith,
}
use faster_config.Name.{dot}
use faster_config.Name.Labels.{split, wire_name, IsLabel}
use faster_config.Dns.Reader.{read_message}
use faster_config.Message.{Header, Message, masked, get16bits, put16bits, decode_hdr, flags_of}
use faster_config.Message.Query.{done, Query, Section, decode_section, decode}
use faster_config.Message.Query.Names.{decode_qname-wire_name}
use faster_config.Message.Response.{Response, code}
use faster_config.Message.Response.Reads.{reply_of, read_message-code}
use faster_config.Resolver.{process}

-- The twelve bytes of a header.
abbrev pub header_bytes : Header → Bytes
header_bytes h =
    put16bits
      (put16bits
        (put16bits (put16bits (put16bits (put16bits [] h.trans_id) h.flags) h.qdcount) h.ancount)
        h.nscount)
      h.arcount

pub record IsHeader (h : Header) : Type 0 where
  pub id_word : h.trans_id < 2 ^ 16
  pub flags_word : h.flags < 2 ^ 16
  pub one_question : h.qdcount ≡ 1
  pub no_answer : h.ancount ≡ 0
  pub ns_word : h.nscount < 2 ^ 16
  pub ar_word : h.arcount < 2 ^ 16

word_eq : (n : ℕ) → n < 2 ^ 16 → masked n 8 8 / 2 ^ 8 * 2 ^ 8 + masked n 0 8 ≡ n
word_eq n h = omega arith

decode_hdr-header_bytes :
    (h : Header) (rest : Bytes)
    → IsHeader h
    → decode_hdr (header_bytes h ++ rest)
      ≡ some (record {
        header = h;
        header_flags = flags_of h.flags;
        m_qr = masked h.flags 15 1;
        m_opcode = masked h.flags 11 4;
      })
unfolding decode_hdr put16bits
decode_hdr-header_bytes h rest q = rw (
  word_eq h.trans_id q.id_word,
  word_eq h.flags q.flags_word,
  word_eq h.qdcount (omega (arith, q.one_question)),
  word_eq h.ancount (omega (arith, q.no_answer)),
  word_eq h.nscount q.ns_word,
  word_eq h.arcount q.ar_word,
)

-- What the question section becomes: the type and class are read where the name begins.
two_words :
    (l rest : Bytes)
    → IsLabel l
    → (t c : ℕ) × (s1 s2 : Bytes) × (get16bits (wire_name (l ∷ []) ++ 0 ∷ rest) ≡ some (t, s1))
      × (get16bits s1 ≡ some (c, s2))
unfolding get16bits wire_name
two_words [] rest h = absurd (omega arith)
two_words (c ∷ []) rest h = (_, _, _, _, refl, refl)
two_words (c ∷ d ∷ []) rest h = (_, _, _, _, refl, refl)
two_words (c ∷ d ∷ e ∷ l) rest h = (_, _, _, _, refl, refl)

decode_section-one :
    (fuel : ℕ) (l rest : Bytes)
    → 1 < fuel
    → IsLabel l
    → (s : Section) × (decode_section fuel 1
          (record { buffer = wire_name (l ∷ []) ++ 0 ∷ rest; q_name = []; entries = [] })
        ≡ done s)
      × (s.q_name ≡ l ++ dot ∷ [])
unfolding decode_section
decode_section-one fuel l rest h hl =
    let (t, c, s1, s2, e1, e2) = two_words l rest hl in
    let name = decode_qname-wire_name fuel (l ∷ []) (0 ∷ rest) h (hl, tt) in
    (
      record {
        buffer = s2;
        q_name = l ++ dot ∷ [];
        entries = record { name = length l ∷ l; type = t; class = c } ∷ [];
      },
      rw name (rw e1 (rw e2 refl)),
      refl,
    )

decode_section-zero : (fuel : ℕ) (s : Section) → decode_section fuel 0 s ≡ done s
unfolding decode_section
decode_section-zero fuel s = refl

split-label : (l : Bytes) → All (λ c. c ≢ dot) l → split l ≡ l ∷ []
unfolding split
split-label [] h = refl
split-label (c ∷ l) (hc, hl) = rw (split-label l hl) (ground (arith, ==_iff c dot))

-- A query for a host of one label is decoded, and the response to it is a well-formed message with
-- its id and its name. The header counts one question and no answer, its words have 16 bits, the
-- label has 1 to 63 octets and no dot, a zero byte stands behind the name, and the fuel is two
-- rounds of `decode_qname` or more.
pub decode-process-code :
    (h : Header) (l rest : Bytes) (fuel : ℕ) (blank : Response)
    → IsHeader h
    → IsLabel l
    → All (λ c. c ≢ dot) l
    → 1 < fuel
    → (q : Query) × (decode fuel (header_bytes h ++ (wire_name (l ∷ []) ++ 0 ∷ rest)) ≡ done q)
      × (read_message (code (process q blank)) ≡ some (reply_of h (l ∷ [])))
unfolding decode process put16bits
decode-process-code h l rest fuel blank hh hl plain lt =
    let X = wire_name (l ∷ []) ++ 0 ∷ rest in
    let (s, e, name) = decode_section-one fuel l rest lt hl in
    let head = decode_hdr-header_bytes h X hh in
    let m : Message = record {
      header = h;
      header_flags = flags_of h.flags;
      m_qr = masked h.flags 15 1;
      m_opcode = masked h.flags 11 4;
    } in
    let q : Query = record {
      message = m;
      q_name = s.q_name;
      questions = s.entries;
      answers = [];
    } in
    let decoded : decode fuel (header_bytes h ++ X) ≡ done q =
      rw head (rw (hh.one_question, e) (rw hh.no_answer (rw decode_section-zero))) in
    let labels : All IsLabel (split l) = rw (split-label l plain) (hl, tt) in
    let read = read_message-code h l hh.id_word labels in
    let one : read_message (code (record { header = h; m_name = l ++ dot ∷ [] }))
        ≡ some (reply_of h (l ∷ [])) =
      rw (split-label l plain) at read in
    (q, decoded, rw name one)
