-- ===== src/Lookup/Receive/Records.antt =====
-- src/DNSLookup.cpp: the loop of `RecvDNSResponse` over address records.
use faster_config.Base.{
  ℕ, suc, ◌+◌, ◌/◌, ◌%◌, ◌≤◌, some, List, [], ◌∷◌, ◌++◌, append-nil, append_assoc, Bytes, true,
  false, ltb, field, length, drop, All, ◌≡◌, refl, subst, ap, ◌∙◌, arith,
}
use faster_config.Name.Labels.{split, wire_name, IsLabel}
use faster_config.Lookup.{decoded, decode_dot_str}
use faster_config.Lookup.RoundTrip.{decode_dot_str-pointer}
use faster_config.Lookup.Receive.{accepted, dot_name_size, read_answers}

-- An address record for the name of the question, whose octets begin at offset 12.
abbrev pub address_record : ℕ → Bytes → Bytes
address_record ttl ip =
    0xc0
    ∷ 12
    ∷ 0
    ∷ 1
    ∷ 0
    ∷ 1
    ∷ field ttl 24 8
    ∷ field ttl 16 8
    ∷ field ttl 8 8
    ∷ field ttl 0 8
    ∷ 0
    ∷ 4
    ∷ ip

abbrev pub records : ℕ → List Bytes → Bytes
records ttl [] = []
records ttl (ip ∷ ips) = address_record ttl ip ++ records ttl ips

-- The reply to a question for the addresses of a name; the id is as the machine has it.
abbrev pub reply_with : ℕ → ℕ → Bytes → ℕ → List Bytes → Bytes
reply_with proc_id flags name ttl ips =
    proc_id % 256
    ∷ proc_id / 256
    ∷ field flags 8 8
    ∷ field flags 0 8
    ∷ 0
    ∷ 1
    ∷ 0
    ∷ length ips
    ∷ 0
    ∷ 0
    ∷ 0
    ∷ 0
    ∷ (wire_name (split name) ++ (0 ∷ 1 ∷ 0 ∷ 1 ∷ records ttl ips))

four_bytes :
    (ip : Bytes) → length ip ≡ 4 → (a : ℕ) × (b : ℕ) × (c : ℕ) × (d : ℕ) × (ip ≡ a ∷ b ∷ c ∷ d ∷ [])
four_bytes [] h = absurd (omega arith)
four_bytes (a ∷ []) h = absurd (omega arith)
four_bytes (a ∷ b ∷ []) h = absurd (omega arith)
four_bytes (a ∷ b ∷ c ∷ []) h = absurd (omega arith)
four_bytes (a ∷ b ∷ c ∷ d ∷ []) h = (a, b, c, d, refl)
four_bytes (a ∷ b ∷ c ∷ d ∷ e ∷ ip) h = absurd (omega arith)

-- One record behind its owner, which has been decoded.
read_answers-record :
    (fuel count : ℕ) (recvbuf rest : Bytes) (ttl a b c d : ℕ) (found : List Bytes) (owner : Bytes)
    → decode_dot_str fuel
        (some recvbuf)
        dot_name_size
        (address_record ttl (a ∷ b ∷ c ∷ d ∷ []) ++ rest)
      ≡ decoded owner 2
    → read_answers fuel 4 true false
        (suc count)
        recvbuf
        (address_record ttl (a ∷ b ∷ c ∷ d ∷ []) ++ rest)
        found
        []
      ≡ read_answers fuel 4 true false count recvbuf rest (found ++ (a ∷ b ∷ c ∷ d ∷ []) ∷ []) []
unfolding read_answers
read_answers-record fuel count recvbuf rest ttl a b c d found owner h =
    let n : ℕ = length rest in
    let fixed : ltb (length (drop 2 (address_record ttl (a ∷ b ∷ c ∷ d ∷ []) ++ rest))) 10 ≡ false =
      ground arith in
    let word : ltb (length (drop 2 (address_record ttl (a ∷ b ∷ c ∷ d ∷ []) ++ rest))) (4 + 4)
        ≡ false =
      ground arith in
    let value : ltb (length (a ∷ b ∷ c ∷ d ∷ rest)) 4 ≡ false = ground arith in
    rw (read_answers, h) (rw fixed (rw word (rw value refl)))

pub read_answers-records :
    (fuel : ℕ) (name recvbuf tail stale : Bytes) (ttl : ℕ) (ips found : List Bytes)
    → All IsLabel (split name)
    → length name + 1 ≤ dot_name_size
    → drop 12 recvbuf ≡ wire_name (split name) ++ tail
    → All (λ ip. length ip ≡ 4) ips
    → read_answers
        (suc (length (split name) + suc fuel))
        4
        true
        false
        (length ips)
        recvbuf
        (records ttl ips ++ stale)
        found
        []
      ≡ accepted (found ++ ips) []
unfolding read_answers
read_answers-records fuel name recvbuf tail stale ttl [] found labels room at h =
    rw (append-nil found)
read_answers-records fuel name recvbuf tail stale ttl (ip ∷ ips) found labels room at (h, hs) =
    let (a, b, c, d, e) = four_bytes ip h in
    let value : Bytes = a ∷ b ∷ c ∷ d ∷ [] in
    let rest : Bytes = records ttl ips ++ stale in
    let rounds : ℕ = suc (length (split name) + suc fuel) in
    let owner =
      decode_dot_str-pointer [] name recvbuf tail (drop 2 (address_record ttl value ++ rest)) 0xc0
        12 fuel dot_name_size tt labels (omega arith) at (omega (arith, room)) (omega arith)
        (omega arith) (omega (arith, room)) in
    let enough : 0 + rounds ≡ rounds = omega arith in
    let decoded_owner =
      subst
        (λ k.
          decode_dot_str k (some recvbuf) dot_name_size (address_record ttl value ++ rest)
          ≡ decoded name 2)
        enough owner in
    let one =
      read_answers-record rounds (length ips) recvbuf rest ttl a b c d found name decoded_owner in
    let ih =
      read_answers-records fuel name recvbuf tail stale ttl ips (found ++ value ∷ []) labels room at
        hs in
    rw e (one ∙ ih ∙ ap (λ l. accepted l []) (append_assoc found (value ∷ []) ips))
