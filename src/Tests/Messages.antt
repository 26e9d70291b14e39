-- ===== src/Tests/Messages.antt =====
-- src/message.cpp, src/query.cpp, src/response.cpp and src/resolver.cpp: the theorems at concrete
-- messages and hosts.
use faster_config.Base.{
  ℕ, some, List, [], ◌∷◌, ◌++◌, map, codes, All, ltb→lt, leb→le, ◌≡◌, refl, arith,
}
use faster_config.Name.{dot}
use faster_config.Name.Labels.{split, wire_label, wire_name, IsLabel}
use faster_config.Dns.Reader.{read_message}
use faster_config.Message.{Header}
use faster_config.Message.Query.{running, done, Query, decode, decode_qname}
use faster_config.Message.Query.Names.{decoded_labels, decode_qname-wire_name, decode_qname-pointer}
use faster_config.Message.Response.{code}
use faster_config.Message.Response.Reads.{reply_of, read_message-code}
use faster_config.Resolver.{Record, init, find, process}
use faster_config.Resolver.Hosts.{line_of, record_of, IsHost, head_or_empty, names_of, find-init}
use faster_config.Resolver.Answers.{header_bytes, IsHeader, decode-process-code}

abbrev header : Header
header = record { trans_id = 7; flags = 0x0100; qdcount = 1; ancount = 0; nscount = 0; arcount = 0 }

ab-IsLabel : IsLabel (codes "ab")
ab-IsLabel = (ltb→lt _ _ refl, ltb→lt _ _ refl)

decode_qname-wire_name_example :
    decode_qname 4 (wire_name (codes "ab" ∷ []) ++ 0 ∷ []) ≡ decoded_labels (codes "ab" ∷ [])
decode_qname-wire_name_example =
    decode_qname-wire_name 4 (codes "ab" ∷ []) (0 ∷ []) (ltb→lt _ _ refl) (ab-IsLabel, tt)

decode_qname-pointer_example :
    (decode_qname 9 (0xc0 ∷ 12 ∷ []) ≡ running)
    × (decode_qname 9 (wire_label (codes "ab") ++ 0xc0 ∷ 12 ∷ []) ≡ running)
decode_qname-pointer_example =
    decode_qname-pointer 9 (codes "ab") (12 ∷ []) 0xc0 (leb→le _ _ refl) ab-IsLabel

ab_labels : All IsLabel (split (codes "ab.ab"))
unfolding split
ab_labels = (ab-IsLabel, (ab-IsLabel, tt))

read_message-code_example :
    read_message (code (record { header = header; m_name = codes "ab.ab" ++ dot ∷ [] }))
    ≡ some (reply_of header (split (codes "ab.ab")))
read_message-code_example = read_message-code header (codes "ab.ab") (ltb→lt _ _ refl) ab_labels

header-IsHeader : IsHeader header
header-IsHeader = record {
  id_word = ltb→lt _ _ refl;
  flags_word = ltb→lt _ _ refl;
  one_question = refl;
  no_answer = refl;
  ns_word = ltb→lt _ _ refl;
  ar_word = ltb→lt _ _ refl;
}

decode-process-code_example :
    (q : Query) × (decode 2
        (header_bytes header ++ (wire_name (codes "ab" ∷ []) ++ 0 ∷ 1 ∷ 0 ∷ 1 ∷ []))
      ≡ done q)
    × (read_message (code (process q (record { header = header; m_name = [] })))
        ≡ some (reply_of header (codes "ab" ∷ [])))
decode-process-code_example =
    decode-process-code header (codes "ab") (1 ∷ 0 ∷ 1 ∷ []) 2
      (record { header = header; m_name = [] }) header-IsHeader ab-IsLabel
      ((λ e. omega (arith, e)), ((λ e. omega (arith, e)), tt)) (ltb→lt _ _ refl)

abbrev hosts : List (ℕ × Record)
hosts = (3, record { ip_address = codes "1.2"; domain_name = codes "x" }) ∷ []

hosts-IsHost : All IsHost hosts
hosts-IsHost = (
  (
    (λ e. omega (arith, e), (λ e. omega (arith, e), (λ e. omega (arith, e), tt))),
    (λ e. omega (arith, e), tt),
  ),
  tt,
)

find-init_example :
    find (init [] (map line_of hosts)) (codes "1.2")
    ≡ head_or_empty (names_of (map record_of hosts) (codes "1.2"))
find-init_example = find-init hosts (codes "1.2") hosts-IsHost
