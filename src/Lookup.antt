-- ===== src/Lookup.antt =====
-- src/DNSLookup.h and src/DNSLookup.cpp: the names of `CDNSLookup` and the request that it sends.
-- `Receive` reads the replies, `Client` joins the two.
pub mod Tokens
pub mod RoundTrip
pub mod Request
pub mod Receive
pub mod Client
use faster_config.Base.{
  ℕ, zero, suc, ◌+◌, ◌-◌, ◌*◌, ◌/◌, ◌%◌, ◌^◌, Option, none, some, List, [], ◌∷◌, ◌++◌, Bytes, ◌==◌,
  ltb, leb, if◌then◌else◌, length, take, drop,
}
use faster_config.Name.{dot}

-- The tokens that `strtok(szDotStrCopy, ".")` gives.
abbrev pub flush : Bytes → List Bytes → List Bytes
flush [] ts = ts
flush (c ∷ w) ts = (c ∷ w) ∷ ts

unfoldable pub labels_from : Bytes → Bytes → List Bytes
labels_from word [] = flush word []
labels_from word (c ∷ s) =
    let next = labels_from [] s in
    let longer = labels_from (word ++ c ∷ []) s in if c == dot then flush word next else longer

-- What the `sprintf`s write, with the terminator of the last, when there is a token.
unfoldable pub write_tokens : List Bytes → Bytes
write_tokens [] = 0 ∷ []
write_tokens (l ∷ ls) = length l % 256 ∷ (l ++ write_tokens ls)

-- How `EncodeDotStr` ends: with FALSE, with a copy of the name behind the end of `szDotStrCopy`, with
-- TRUE and nothing written, or with TRUE and the bytes at `szEncodedStr`.
pub data Encoding : Type 0 where
  too_small copy_overrun unwritten : Encoding
  encoded : Bytes → Encoding

abbrev pub with_tokens : List Bytes → Encoding
with_tokens [] = unwritten
with_tokens (l ∷ ls) = encoded (write_tokens (l ∷ ls))

-- `EncodeDotStr`, for strings that are not null; `nDotStrLen` and the size are `USHORT`s.
unfoldable pub encode_dot_str : Bytes → ℕ → Encoding
encode_dot_str dot_str encoded_str_size =
    if ltb (encoded_str_size % 2 ^ 16) (length dot_str % 2 ^ 16 + 2)
    then too_small
    else if leb (2 ^ 16) (length dot_str)
    then copy_overrun
    else with_tokens (labels_from [] dot_str)

-- How `DecodeDotStr` ends: with a read past the packet, with a write before `szDotStr`, not at all,
-- with FALSE, or with TRUE, the text and `*pusEncodedStrLen`.
pub data Decoding : Type 0 where
  overrun underflow running failed : Decoding
  decoded : Bytes → ℕ → Decoding

-- The last dot becomes the terminator. The count of `*pusEncodedStrLen`, a `USHORT`, is carried as a
-- number and wraps where it is given.
abbrev pub finish : Bytes → ℕ → Decoding
finish [] encoded_len = underflow
finish (c ∷ out) encoded_len = decoded (take (length out) (c ∷ out)) ((encoded_len + 1) % 2 ^ 16)

abbrev pub through_pointer : Decoding → ℕ → Decoding
through_pointer (decoded text n) encoded_len = decoded text ((encoded_len + 2) % 2 ^ 16)
through_pointer r encoded_len = r

-- The loop of `DecodeDotStr` over what is left at `pDecodePos`. `out` is the text written, by the
-- calls before this one too, of `size` characters at most; `none` is a null `szPacketStartPos`. Fuel
-- that runs out is `running`.
unfoldable pub decode_labels : ℕ → Option Bytes → ℕ → Bytes → ℕ → Bytes → Decoding
decode_labels zero packet size out encoded_len s = running
decode_labels (suc fuel) packet size out encoded_len [] = overrun
decode_labels (suc fuel) packet size out encoded_len (n ∷ s) =
    let next =
      decode_labels fuel packet size (out ++ take n s ++ dot ∷ []) (encoded_len + (n + 1))
        (drop n s) in
    let jumped : Decoding = elim packet [
      | none ↦ failed
      | some p ↦ elim s [
        | [] ↦ overrun
        | low ∷ rest ↦
            through_pointer
              (decode_labels fuel (some p) size out 0 (drop ((n * 256 + low) % 2 ^ 14) p))
              encoded_len
      ]
    ] in
    if n == 0
    then finish out encoded_len
    else if ltb n 64
    then if ltb size (length out + n + 1)
      then failed
      else if ltb (length s) n
      then overrun
      else next
    else jumped

-- `DecodeDotStr`, for strings that are not null.
unfoldable pub decode_dot_str : ℕ → Option Bytes → ℕ → Bytes → Decoding
decode_dot_str fuel packet size encoded_str =
    decode_labels fuel packet (size % 2 ^ 16) [] 0 encoded_str

-- `DNS_PACKET_MAX_SIZE`.
abbrev pub packet_max_size : ℕ
packet_max_size = 12 + 255 + 2 + 2

-- The string at `szEncodedDomainName` with its terminator, as `strlen` takes it: a label whose length
-- is a multiple of 256 has a zero before it.
unfoldable pub encoded_string : List Bytes → Bytes
encoded_string [] = 0 ∷ []
encoded_string (l ∷ ls) =
    let rest = encoded_string ls in
    if length l % 256 == 0 then 0 ∷ [] else length l % 256 ∷ (l ++ rest)

-- The datagram of `SendDNSRequest`; the id is kept as the machine has it, the low byte first. `none`
-- is a name that `EncodeDotStr` refuses or does not write, or that does not fit the packet.
unfoldable pub send_dns_request : ℕ → Bytes → Option Bytes
send_dns_request proc_id domain_name =
    elim (encode_dot_str domain_name (length domain_name % 2 ^ 16 + 2)) [
      | too_small ↦ none
      | copy_overrun ↦ none
      | unwritten ↦ none
      | encoded bytes ↦
          let packet =
            proc_id % 256
            ∷ proc_id / 256 % 256
            ∷ 1
            ∷ 0
            ∷ 0
            ∷ 1
            ∷ 0
            ∷ 0
            ∷ 0
            ∷ 0
            ∷ 0
            ∷ 0
            ∷ (encoded_string (labels_from [] domain_name) ++ 0 ∷ 1 ∷ 0 ∷ 1 ∷ []) in
          if leb (length packet) packet_max_size then some packet else none
    ]
