-- ===== src/Message/Print.antt =====
-- src/message.cpp and src/query.cpp: `Message::asString` and `Query::asString`, the texts in the log.
use faster_config.Base.{
  ℕ, zero, suc, ◌+◌, ◌/◌, ◌%◌, List, [], ◌∷◌, ◌++◌, Bytes, codes, ◌==◌, ltb, if◌then◌else◌, get_or,
  length,
}
use faster_config.Iptable.{decimal}
use faster_config.Message.{Message}
use faster_config.Message.Query.{Question, Query}

-- `hex` of a number of 32 bits, which has at most eight digits.
unfoldable pub hex_digits : ℕ → ℕ → Bytes
hex_digits zero n = []
hex_digits (suc fuel) n =
    let high = hex_digits fuel (n / 16) in
    (if ltb n 16 then [] else high) ++ get_or (codes "0123456789abcdef") (n % 16) 0 ∷ []

-- With `showbase`, which leaves 0 as it is.
unfoldable pub with_base : ℕ → Bytes
unfolding hex_digits
with_base n = if n == 0 then codes "0" else codes "0x" ++ hex_digits 8 n

-- A line with a number in base 16: `noshowbase` leaves `hex` on.
abbrev pub count_line : Bytes → ℕ → Bytes
count_line name n = b'\t' ∷ (name ++ (codes ": " ++ (hex_digits 8 n ++ b'\n' ∷ [])))

-- `Message::asString`.
unfoldable pub message_as_string : Message → Bytes
unfolding with_base
message_as_string m =
    codes "ID: "
    ++ (with_base m.header.trans_id
        ++ (b'\n'
            ∷ b'\t'
            ∷ (codes "fields: [ QR: "
                ++ (hex_digits 8 m.m_qr
                    ++ (codes " opCode: "
                        ++ (hex_digits 8 m.m_opcode
                            ++ (codes " ]"
                                ++ (b'\n'
                                    ∷ (count_line (codes "QDcount") m.header.qdcount
                                        ++ (count_line (codes "ANcount") m.header.ancount
                                            ++ (count_line (codes "NScount") m.header.nscount
                                                ++ count_line (codes "ARcount")
                                                    m.header.arcount)))))))))))

-- `hex << setw(2)` of a byte, with blanks to fill, and a blank behind it.
unfoldable pub binary_text : Bytes → Bytes
unfolding hex_digits
binary_text [] = []
binary_text (c ∷ name) =
    (if ltb c 16 then b' ' ∷ [] else []) ++ (hex_digits 8 c ++ b' ' ∷ binary_text name)

-- A line of a section, with the blanks before its tabulator.
abbrev pub section_line : Bytes → Bytes → Bytes → Bytes
section_line indent name text = indent ++ (b'\t' ∷ (name ++ text))

-- The loop over the questions, from the one with an index on.
unfoldable pub questions_text : ℕ → Bytes → List Question → Bytes
unfolding binary_text
questions_text i q_name [] = []
questions_text i q_name (q ∷ questions) =
    section_line (codes "   ") (codes "QuestionSection: ") (decimal i ++ (b'{' ∷ b'\n' ∷ []))
    ++ (section_line (codes "             ") (codes "Qname: ") (q_name ++ b'\n' ∷ [])
        ++ (section_line (codes "             ") (codes "NameLength: ")
              (decimal (length q.name) ++ b'\n' ∷ [])
            ++ (section_line (codes "             ") (codes "QnameBinary: ")
                  (binary_text q.name ++ b'\n' ∷ [])
                ++ (section_line (codes "             ") (codes "Qtype: ")
                      (decimal q.type ++ b'\n' ∷ [])
                    ++ (section_line (codes "            ") (codes "Qclass: ") (decimal q.class)
                        ++ (codes "   }" ++ (b'\n' ∷ questions_text (i + 1) q_name questions)))))))

-- `Query::asString`.
unfoldable pub query_as_string : Query → Bytes
unfolding message_as_string questions_text
query_as_string q =
    b'\n'
    ∷ (codes "QUERY { "
        ++ (message_as_string q.message ++ (questions_text 0 q.q_name q.questions ++ codes " }")))
