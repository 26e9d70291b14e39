-- ===== src/Message/Query.antt =====
-- src/query.h and src/query.cpp: `Query::decode` and `Query::decode_qname`.
pub mod Names
use faster_config.Base.{
  ℕ, zero, suc, ◌+◌, ◌%◌, Option, none, some, List, [], ◌∷◌, ◌++◌, Bytes, ◌==◌, ltb, leb,
  if◌then◌else◌, length, take, drop,
}
use faster_config.Message.{Header, Message, get16bits, decode_hdr}
use faster_config.Name.{dot}

-- How decoding ends: with a read past the bytes received, with a write outside the heap block of
-- `binaryName`, with a loop over as many bytes as a `NameLength` says that nothing has assigned, not at
-- all, or with a value.
pub data Decoded {ℓ} (A : Type ℓ) : Type ℓ where
  overrun heap_overflow unassigned running : Decoded A
  done : A → Decoded A

abbrev pub and_then {ℓ κ} : {A : Type ℓ} {B : Type κ} → Decoded A → (A → Decoded B) → Decoded B
and_then overrun f = overrun
and_then heap_overflow f = heap_overflow
and_then unassigned f = unassigned
and_then running f = running
and_then (done a) f = f a

abbrev pub from_option {ℓ} : {A : Type ℓ} → Option A → Decoded A
from_option none = overrun
from_option (some a) = done a

-- The `while` loop of `decode_qname`, over what is left at `decodeStr`; the block of `binaryName` has
-- `capacity` bytes, and `realloc` makes it as long as what it holds after each label. Fuel that runs
-- out is `running`.
unfoldable pub decode_loop : ℕ → Bytes → Bytes → Bytes → ℕ → Decoded (Bytes × Bytes)
decode_loop zero s name binary capacity = running
decode_loop (suc fuel) [] name binary capacity = overrun
decode_loop (suc fuel) (n ∷ s) name binary capacity =
    let held = length binary + (n + 1) in
    let next =
      decode_loop fuel (drop n s) (name ++ take n s ++ dot ∷ []) (binary ++ n ∷ take n s) held in
    let again = decode_loop fuel (n ∷ s) name binary capacity in
    if n == 0
    then done (name, binary)
    else if ltb n 64
    then if ltb (length s) n then overrun else if ltb capacity held then heap_overflow else next
    else again

-- `Query::decode_qname`: `m_qName` and `binaryName`. `buffer` is not moved.
unfoldable pub decode_qname : ℕ → Bytes → Decoded (Bytes × Bytes)
decode_qname fuel [] = overrun
decode_qname fuel (n ∷ s) = decode_loop fuel (n ∷ s) [] [] (n + 1)

-- An entry of the question section, or what is decoded of one of the answers.
pub record Question : Type 0 where
  pub name : Bytes
  pub type : ℕ
  pub class : ℕ

pub record Section : Type 0 where
  pub buffer : Bytes
  pub q_name : Bytes
  pub entries : List Question

-- Either `for` loop of `decode`, for the entries that are left. `decode_qname` assigns `NameLength` in
-- its loop only, so the root leaves it as `malloc` gave it.
unfoldable pub decode_section : ℕ → ℕ → Section → Decoded Section
unfolding get16bits
decode_section fuel zero s = done s
decode_section fuel (suc count) s = and_then (decode_qname fuel s.buffer) λ (name, binary).
    elim binary [
      | [] ↦ unassigned
      | n ∷ bs ↦ and_then (from_option (get16bits s.buffer)) λ (type, s1).
          and_then (from_option (get16bits s1)) λ (class, s2). decode_section fuel count (record {
            buffer = s2;
            q_name = name;
            entries = s.entries ++ record { name = n ∷ bs; type = type; class = class } ∷ [];
          })
    ]

-- `Query`: the message, the name decoded last, and the two sections.
pub record Query : Type 0 where
  pub message : Message
  pub q_name : Bytes
  pub questions : List Question
  pub answers : List Question

-- `Query::decode`, for a query whose `m_qName` is empty.
unfoldable pub decode : ℕ → Bytes → Decoded Query
decode fuel buffer = and_then (from_option (decode_hdr buffer)) λ message.
    and_then
      (decode_section fuel message.header.qdcount
        (record { buffer = drop 12 buffer; q_name = []; entries = [] }))
      λ asked.
        and_then
          (decode_section fuel message.header.ancount
            (record { buffer = asked.buffer; q_name = asked.q_name; entries = [] }))
          λ answered. done (record {
            message = message;
            q_name = answered.q_name;
            questions = asked.entries;
            answers = answered.entries;
          })
