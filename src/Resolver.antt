-- ===== src/Resolver.antt =====
-- src/resolver.h and src/resolver.cpp: the list of hosts. A linked list over `next` is a list; the
-- contents of the file are its lines, as `getline` gives them.
pub mod Hosts
pub mod Answers
use faster_config.Base.{
  ℕ, zero, suc, ◌+◌, Option, none, some, List, [], ◌∷◌, ◌++◌, Bytes, codes, str_eq, if◌then◌else◌,
  ◌==◌, length, take, drop,
}
use faster_config.Name.{find_char}
use faster_config.Message.{Header, Message}
use faster_config.Message.Query.{Query}
use faster_config.Message.Response.{Response}

pub record Record : Type 0 where
  pub ip_address : Bytes
  pub domain_name : Bytes

abbrev pub space : ℕ
space = b' '

-- `line.find_last_of(" ")`.
unfoldable pub find_last_of : ℕ → Bytes → Option ℕ
find_last_of c [] = none
find_last_of c (x ∷ s) = elim (find_last_of c s) [
  | some i ↦ some (suc i)
  | none ↦ if x == c then some 0 else none
]

-- `Resolver::add`.
unfoldable pub add : List Record → Record → List Record
add records newone = records ++ newone ∷ []

-- `Resolver::store`.
unfoldable pub store : List Record → Bytes → List Record
unfolding add
store records line = elim (find_char space line) [
  | none ↦ records
  | some ip_address_end_pos ↦ elim (find_last_of space line) [
    | none ↦ records
    | some domain_name_start_pos ↦ add records (record {
      ip_address = take ip_address_end_pos line;
      domain_name = drop (domain_name_start_pos + 1) line;
    })
  ]
]

-- The loop of `Resolver::init`, once the file is open.
unfoldable pub init : List Record → List Bytes → List Record
init records [] = records
init records (line ∷ lines) = init (store records line) lines

-- `Resolver::find`.
unfoldable pub find : List Record → Bytes → Bytes
find [] ip_address = []
find (r ∷ records) ip_address =
    if str_eq r.ip_address ip_address then r.domain_name else find records ip_address

-- `Resolver::print_records`.
abbrev pub record_line : Record → Bytes
record_line r = codes "Record: " ++ (r.ip_address ++ (codes " - " ++ (r.domain_name ++ b'\n' ∷ [])))

abbrev record_lines : List Record → Bytes
record_lines [] = b'\n' ∷ []
record_lines (r ∷ records) = record_line r ++ record_lines records

unfoldable pub print_records : List Record → Bytes
print_records [] =
    codes "Reading records from file..." ++ (b'\n' ∷ (codes "No records on list." ++ b'\n' ∷ []))
print_records (r ∷ records) =
    codes "Reading records from file..." ++ (b'\n' ∷ record_lines (r ∷ records))

-- `Resolver::process`.
unfoldable pub process : Query → Response → Response
process query response = record { header = query.message.header; m_name = query.q_name }

-- `Resolver::convert`.
unfoldable pub convert : Bytes → Bytes
convert q_name = codes "172.16.1.1"
