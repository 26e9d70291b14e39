-- ===== src/Dns/Reader.antt =====
-- A reader of whole DNS messages, written from RFC 1035, 4.1: twelve octets of header, one question,
-- and as many records in each section as the header counts, with nothing behind them.
use faster_config.Base.{
  ℕ, zero, suc, ◌+◌, ◌-◌, ◌*◌, ◌^◌, Option, none, some, List, [], ◌∷◌, Bytes, ◌==◌, ltb, leb,
  if◌then◌else◌, ◌>>=◌, length, take, drop,
}
use mathlib.Core.Option
use faster_config.Wire.{get2byte}
use faster_config.Name.Labels.{read_labels}

-- A name with the offset that it goes on at, if it ends in a pointer.
pub record Owner : Type 0 where
  pub labels : List Bytes
  pub pointer : Option ℕ

pub record Record : Type 0 where
  pub owner : Owner
  pub rtype : ℕ
  pub rclass : ℕ
  pub ttl : ℕ
  pub rdata : Bytes

pub record Message : Type 0 where
  pub id : ℕ
  pub flags : ℕ
  pub qname : List Bytes
  pub qtype : ℕ
  pub qclass : ℕ
  pub answers : List Record
  pub authorities : List Record
  pub additionals : List Record

abbrev prepend : Bytes → Owner → Owner
prepend l o = record o { labels = l ∷ o.labels }

unfoldable pub read_owner : ℕ → Bytes → Option (Owner × Bytes)
read_owner zero s = none
read_owner (suc fuel) [] = none
read_owner (suc fuel) (n ∷ s) =
    let more = read_owner fuel (drop n s) in
    if n == 0
    then some (record { labels = []; pointer = none }, s)
    else if ltb n 64
    then Option.map (λ (o, rest). (prepend (take n s) o, rest)) more
    else elim s [
      | [] ↦ none
      | low ∷ rest ↦ some (record { labels = []; pointer = some ((n - 192) * 256 + low) }, rest)
    ]

unfoldable pub read_record : Bytes → Option (Record × Bytes)
unfolding read_owner get2byte
read_record s = do
  (o, s1) ← read_owner 4 s
  (t, s2) ← get2byte s1
  (c, s3) ← get2byte s2
  (high, s4) ← get2byte s3
  (low, s5) ← get2byte s4
  (n, s6) ← get2byte s5
  if leb n (length s6)
      then some (
        record { owner = o; rtype = t; rclass = c; ttl = high * 2 ^ 16 + low; rdata = take n s6 },
        drop n s6,
      )
      else none

unfoldable pub read_records : ℕ → Bytes → Option (List Record × Bytes)
unfolding read_record
read_records zero s = some ([], s)
read_records (suc n) s = do
  (r, rest) ← read_record s
  (rs, rest') ← read_records n rest
  some (r ∷ rs, rest')

-- The three sections, given their counts.
unfoldable pub read_sections : ℕ → ℕ → ℕ → Bytes → Option (List Record × List Record × List Record)
unfolding read_records
read_sections an ns ar s = do
  (answers, s1) ← read_records an s
  (authorities, s2) ← read_records ns s1
  (additionals, s3) ← read_records ar s2
  elim s3 [ [] ↦ some (answers, authorities, additionals) | _ ∷ _ ↦ none ]

unfoldable pub read_message : Bytes → Option Message
unfolding get2byte
read_message s = do
  (id, s1) ← get2byte s
  (flags, s2) ← get2byte s1
  (qd, s3) ← get2byte s2
  (an, s4) ← get2byte s3
  (ns, s5) ← get2byte s4
  (ar, s6) ← get2byte s5
  (name, s7) ← read_labels (length s6) s6
  (t, s8) ← get2byte s7
  (c, s9) ← get2byte s8
  (answers, authorities, additionals) ← read_sections an ns ar s9
  if qd == 1
      then some (record {
        id = id;
        flags = flags;
        qname = name;
        qtype = t;
        qclass = c;
        answers = answers;
        authorities = authorities;
        additionals = additionals;
      })
      else none
