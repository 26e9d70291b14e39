-- ===== src/Message/Response/Reads.antt =====
-- src/response.cpp: the reply of `Response::code`, to a reader of DNS messages.
use faster_config.Base.{
  ◌+◌, ◌*◌, ◌/◌, ◌^◌, ◌<◌, some, List, [], ◌∷◌, ◌++◌, append_assoc, Bytes, ◌==◌, Bool-cases, inl,
  inr, length, All, length-append, ◌≡◌, refl, sym, ap, ◌∙◌, arith,
}
use faster_config.Name.{dot}
use faster_config.Name.Labels.{
  split, split-cons, wire_label, wire_name, IsLabel, read_labels-wire_name,
}
use faster_config.Name.Encode.{code_domain-wire_name, length-lt-wire_name}
use faster_config.Dns.Reader.{Message, read_sections, read_message}
use faster_config.Message.{Header, masked, put16bits, code_hdr}
use faster_config.Message.Response.{canned, code}

split-dot : (s : Bytes) → split (s ++ dot ∷ []) ≡ split s ++ [] ∷ []
unfolding split
split-dot [] = refl
split-dot (c ∷ s) =
    let rest = split-dot s in
    let (l, ls, h) = split-cons s in
    elim (Bool-cases (c == dot)) [ inl e ↦ rw e (ap (λ t. [] ∷ t) rest) | inr e ↦ rw (e, rest, h) ]

wire_name-empty : (ls : List Bytes) → wire_name (ls ++ [] ∷ []) ≡ wire_name ls ++ 0 ∷ []
unfolding wire_name
wire_name-empty [] = refl
wire_name-empty (l ∷ ls) =
    let rest = wire_name-empty ls in
    ap (λ t. wire_label l ++ t) rest ∙ sym (append_assoc (wire_label l) (wire_name ls) (0 ∷ []))

-- The message that a client reads: the question in class IN for an address, and 172.31.255.240 for it.
pub reply_of : Header → List Bytes → Message
reply_of h ls = record {
  id = h.trans_id;
  flags = 0x8580;
  qname = ls;
  qtype = 1;
  qclass = 1;
  answers =
      record {
        owner = record { labels = []; pointer = some 12 };
        rtype = 1;
        rclass = 1;
        ttl = 0;
        rdata = 172 ∷ 31 ∷ 255 ∷ 240 ∷ [];
      }
      ∷ [];
  authorities = [];
  additionals = [];
}

-- What follows the name.
abbrev rest_of : Bytes
rest_of =
    0 ∷ 1 ∷ 0 ∷ 1 ∷ 0xc0 ∷ 0x0c ∷ 0 ∷ 1 ∷ 0 ∷ 1 ∷ 0 ∷ 0 ∷ 0 ∷ 0 ∷ 0 ∷ 4 ∷ 172 ∷ 31 ∷ 255 ∷ 240 ∷ []

canned-append : (b : Bytes) → canned (b ++ 0 ∷ []) ≡ b ++ rest_of
unfolding canned put16bits
canned-append b = simp append_assoc

code-append :
    (h : Header) (name : Bytes)
    → code (record { header = h; m_name = name ++ dot ∷ [] })
      ≡ code_hdr h ++ (wire_name (split name) ++ rest_of)
unfolding code
code-append h name =
    rw (code_domain-wire_name, split-dot name, wire_name-empty (split name))
      (ap canned (sym (append_assoc (code_hdr h) (wire_name (split name)) (0 ∷ [])))
        ∙ canned-append (code_hdr h ++ wire_name (split name))
        ∙ append_assoc (code_hdr h) (wire_name (split name)) rest_of)

-- The response for a name that ends in a dot is a well-formed message: its reader finds the id of
-- the query, a question for the address of the name without the dot, and the one record of the
-- canned reply. The labels have 1 to 63 octets, and the id is a 16-bit value.
pub read_message-code :
    (h : Header) (name : Bytes)
    → h.trans_id < 2 ^ 16
    → All IsLabel (split name)
    → read_message (code (record { header = h; m_name = name ++ dot ∷ [] }))
      ≡ some (reply_of h (split name))
unfolding read_message code_hdr put16bits reply_of read_sections
read_message-code h name id labels =
    let word : masked h.trans_id 8 8 / 2 ^ 8 * 2 ^ 8 + masked h.trans_id 0 8 ≡ h.trans_id =
      omega arith in
    let name_read =
      read_labels-wire_name (split name) rest_of (length (wire_name (split name) ++ rest_of))
        (omega
          (arith, length-lt-wire_name (split name), length-append (wire_name (split name)) rest_of))
        labels in
    rw code-append (rw name_read (rw word))
