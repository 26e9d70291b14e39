-- ===== src/Lookup/RoundTrip.antt =====
-- src/DNSLookup.cpp: `DecodeDotStr` against the names of the wire.
use faster_config.Base.{
  ℕ, zero, suc, ◌+◌, ◌*◌, ◌%◌, ◌^◌, ◌≤◌, ◌<◌, Option, some, List, [], ◌∷◌, ◌++◌, append-nil,
  append_assoc, Bytes, ◌==◌, ==_iff, Bool-cases, inl, inr, length, drop, All, length-append,
  take-length-append, drop-length-append, ◌≡◌, refl, sym, ap, ◌∙◌, arith,
}
use faster_config.Name.{dot}
use faster_config.Name.Labels.{split, split-cons, wire_label, wire_name, IsLabel}
use faster_config.Name.Encode.{length-wire_name-split}
use faster_config.Lookup.{
  encoded, encode_dot_str, running, decoded, finish, through_pointer, decode_labels, decode_dot_str,
}
use faster_config.Lookup.Tokens.{encode_dot_str-wire_name}

-- Labels with a dot behind each, and on the wire without the octet of the root.
abbrev pub dotted : List Bytes → Bytes
dotted [] = []
dotted (l ∷ ls) = l ++ dot ∷ [] ++ dotted ls

abbrev pub wire_labels : List Bytes → Bytes
wire_labels [] = []
wire_labels (l ∷ ls) = wire_label l ++ wire_labels ls

-- One round for a label.
decode_labels-label :
    (fuel : ℕ) (packet : Option Bytes) (size : ℕ) (out : Bytes) (n : ℕ) (l rest : Bytes)
    → IsLabel l
    → length out + length l + 1 ≤ size
    → decode_labels (suc fuel) packet size out n (wire_label l ++ rest)
      ≡ decode_labels fuel packet size (out ++ l ++ dot ∷ []) (n + (length l + 1)) rest
unfolding decode_labels
decode_labels-label fuel packet size out n l rest (h1, h2) le =
    let e : length l % 256 ≡ length l = omega arith in
    rw (e, take-length-append l rest, drop-length-append l rest)
      (ground (arith, length-append l rest))

-- The loop over labels.
decode_labels-wire_labels :
    (ls : List Bytes) (k fuel : ℕ) (packet : Option Bytes) (size : ℕ) (out : Bytes) (n : ℕ)
    (rest : Bytes)
    → k ≡ length ls + fuel
    → All IsLabel ls
    → length out + length (dotted ls) ≤ size
    → decode_labels k packet size out n (wire_labels ls ++ rest)
      ≡ decode_labels fuel packet size (out ++ dotted ls) (n + length (wire_labels ls)) rest
decode_labels-wire_labels [] k fuel packet size out n rest e h le =
    let same : k ≡ fuel = omega (arith, e) in
    let here : n + 0 ≡ n = omega arith in rw (same, append-nil out, here)
decode_labels-wire_labels (l ∷ ls) zero fuel packet size out n rest e h le =
    absurd (omega (arith, e))
decode_labels-wire_labels (l ∷ ls) (suc k) fuel packet size out n rest e (hl, hs) le =
    let long = length-append (l ++ dot ∷ []) (dotted ls) in
    let one = length-append l (dot ∷ []) in
    let grown = length-append out (l ++ dot ∷ []) in
    let wire = length-append l (wire_labels ls) in
    let first =
      decode_labels-label k packet size out n l (wire_labels ls ++ rest) hl
        (omega (arith, le, long, one)) in
    let later =
      decode_labels-wire_labels ls k fuel packet size (out ++ (l ++ dot ∷ [])) (n + (length l + 1))
        rest (omega (arith, e)) hs (omega (arith, le, long, one, grown)) in
    let count : n + (length l + 1) + length (wire_labels ls)
        ≡ n + suc (length (l ++ wire_labels ls)) =
      omega (arith, wire) in
    rw (append_assoc (wire_label l) (wire_labels ls) rest) (
      first
      ∙ ap (λ o. decode_labels k packet size o (n + (length l + 1)) (wire_labels ls ++ rest))
          (append_assoc out l (dot ∷ []))
      ∙ later
      ∙ ap
          (λ o.
            decode_labels fuel packet size o (n + (length l + 1) + length (wire_labels ls)) rest)
          (append_assoc out (l ++ dot ∷ []) (dotted ls))
      ∙ ap (λ m. decode_labels fuel packet size (out ++ dotted (l ∷ ls)) m rest) count)

dotted-split : (s : Bytes) → dotted (split s) ≡ s ++ dot ∷ []
unfolding split
dotted-split [] = refl
dotted-split (c ∷ s) =
    let (l, ls, q) = split-cons s in
    let rest : dotted (l ∷ ls) ≡ s ++ dot ∷ [] = rw q at (dotted-split s) in
    elim (Bool-cases (c == dot)) [
      | inl d ↦
          let whole : dotted (split s) ≡ s ++ dot ∷ [] = dotted-split s in
          rw (d, whole, (==_iff c dot).0 d)
      | inr d ↦ rw (d, q) (ap (λ t. c ∷ t) rest)
    ]

loops :
    (fuel size n : ℕ) (rest : Bytes)
    → decode_labels fuel (some (0xc0 ∷ 0 ∷ rest)) size [] n (0xc0 ∷ 0 ∷ rest) ≡ running
unfolding decode_labels
loops zero size n rest = refl
loops (suc fuel) size n rest = ap (λ r. through_pointer r n) (loops fuel size 0 rest)

-- A pointer at the start of a packet that points to itself is followed for ever: whatever the
-- fuel, `DecodeDotStr` is still running when it is used up.
pub decode_dot_str_self :
    (fuel size : ℕ) (rest : Bytes)
    → decode_dot_str fuel (some (0xc0 ∷ 0 ∷ rest)) size (0xc0 ∷ 0 ∷ rest) ≡ running
unfolding decode_dot_str
decode_dot_str_self fuel size rest = loops fuel (size % 2 ^ 16) 0 rest

wire_name-wire_labels : (ls : List Bytes) → wire_name ls ≡ wire_labels ls ++ 0 ∷ []
unfolding wire_name
wire_name-wire_labels [] = refl
wire_name-wire_labels (l ∷ ls) =
    ap (λ t. wire_label l ++ t) (wire_name-wire_labels ls)
    ∙ sym (append_assoc (wire_label l) (wire_labels ls) (0 ∷ []))

finish-dot : (s : Bytes) (n : ℕ) → finish (s ++ dot ∷ []) n ≡ decoded s ((n + 1) % 2 ^ 16)
finish-dot [] n = refl
finish-dot (c ∷ s) n =
    let one : length (s ++ dot ∷ []) ≡ suc (length s) = omega (arith, length-append s (dot ∷ [])) in
    rw (one, take-length-append s (dot ∷ []))

root :
    (fuel : ℕ) (packet : Option Bytes) (size : ℕ) (out : Bytes) (n : ℕ) (rest : Bytes)
    → decode_labels (suc fuel) packet size out n (0 ∷ rest) ≡ finish out n
unfolding decode_labels
root fuel packet size out n rest = refl

jump :
    (fuel : ℕ) (packet : Bytes) (size : ℕ) (out : Bytes) (n high low : ℕ) (rest : Bytes)
    → 192 ≤ high
    → decode_labels (suc fuel) (some packet) size out n (high ∷ low ∷ rest)
      ≡ through_pointer
          (decode_labels fuel (some packet) size out 0 (drop ((high * 256 + low) % 2 ^ 14) packet))
          n
unfolding decode_labels
jump fuel packet size out n high low rest h = ground arith

-- A name in dots behind what is written already.
pub decode_labels-split :
    (s : Bytes) (k fuel : ℕ) (packet : Option Bytes) (size : ℕ) (out : Bytes) (n : ℕ) (rest : Bytes)
    → k ≡ length (split s) + suc fuel
    → All IsLabel (split s)
    → length out + length s + 1 ≤ size
    → n + length s + 2 < 2 ^ 16
    → decode_labels k packet size out n (wire_name (split s) ++ rest)
      ≡ decoded (out ++ s) (n + length (wire_name (split s)))
decode_labels-split s k fuel packet size out n rest e h le word =
    let ls = split s in
    let dots = dotted-split s in
    let long = length-append s (dot ∷ []) in
    let wire = length-append (wire_labels ls) (0 ∷ []) in
    let parts = wire_name-wire_labels ls in
    let walk =
      decode_labels-wire_labels ls k (suc fuel) packet size out n (0 ∷ rest) e h
        (rw dots (omega (arith, le, long))) in
    let total = length-wire_name-split s ∙ refl in
    let whole : length (wire_labels ls ++ 0 ∷ []) ≡ length s + 2 = rw parts at total in
    let count : (n + length (wire_labels ls) + 1) % 2 ^ 16 ≡ n + length (wire_labels ls ++ 0 ∷ []) =
      omega (arith, wire, whole, word) in
    rw (parts, append_assoc (wire_labels ls) (0 ∷ []) rest)
      (walk
        ∙ root fuel packet size (out ++ dotted ls) (n + length (wire_labels ls)) rest
        ∙ ap (λ o. finish o (n + length (wire_labels ls)))
            (ap (λ d. out ++ d) dots ∙ sym (append_assoc out s (dot ∷ [])))
        ∙ finish-dot (out ++ s) (n + length (wire_labels ls))
        ∙ ap (decoded (out ++ s)) count)

-- `DecodeDotStr` takes back what `EncodeDotStr` wrote, whatever stands behind it, and counts the
-- bytes of it. The labels have 1 to 63 octets, the sizes of both arrays are 16-bit values, the one of
-- `szDotStr` has room for the name and a dot, and the fuel is one round for each label and one for the
-- end.
pub decode_dot_str-encode :
    (s : Bytes) (fuel : ℕ) (packet : Option Bytes) (size : ℕ) (rest : Bytes)
    → All IsLabel (split s)
    → length s + 1 ≤ size
    → size < 2 ^ 16
    → length s + 2 < 2 ^ 16
    → (e : Bytes) × (encode_dot_str s (length s % 2 ^ 16 + 2) ≡ encoded e)
      × (decode_dot_str (length (split s) + suc fuel) packet size (e ++ rest)
          ≡ decoded s (length s + 2))
unfolding decode_dot_str
decode_dot_str-encode s fuel packet size rest h le word short =
    let read =
      decode_labels-split s (length (split s) + suc fuel) fuel packet size [] 0 rest refl h
        (omega (arith, le)) (omega (arith, short)) in
    let same : size % 2 ^ 16 ≡ size = omega (arith, word) in
    let count : 0 + length (wire_name (split s)) ≡ length s + 2 =
      omega (arith, length-wire_name-split s) in
    (wire_name (split s), encode_dot_str-wire_name s h short, rw same (read ∙ ap (decoded s) count))

-- A compressed name: labels and a pointer to a name elsewhere in the packet decode to both, joined
-- by dots, and count as the labels and two bytes. All labels have 1 to 63 octets, `szDotStr`, whose
-- size is a 16-bit value, has room for the whole and a dot, the counts are 16-bit values, and the
-- fuel is one round for each label, one for the pointer and one for the end.
pub decode_dot_str-pointer :
    (ls : List Bytes) (t packet tail rest : Bytes) (high low fuel size : ℕ)
    → All IsLabel ls
    → All IsLabel (split t)
    → 192 ≤ high
    → drop ((high * 256 + low) % 2 ^ 14) packet ≡ wire_name (split t) ++ tail
    → length (dotted ls) + length t + 1 ≤ size
    → size < 2 ^ 16
    → length (wire_labels ls) + 2 < 2 ^ 16
    → length t + 2 < 2 ^ 16
    → decode_dot_str
        (length ls + suc (length (split t) + suc fuel))
        (some packet)
        size
        (wire_labels ls ++ high ∷ low ∷ rest)
      ≡ decoded (dotted ls ++ t) (length (wire_labels ls) + 2)
unfolding decode_dot_str
decode_dot_str-pointer ls t packet tail rest high low fuel size hl ht up there le word total short =
    let inner = length (split t) + suc fuel in
    let walk =
      decode_labels-wire_labels ls (length ls + suc inner) (suc inner) (some packet) size [] 0
        (high ∷ low ∷ rest) refl hl (omega (arith, le)) in
    let read =
      decode_labels-split t inner fuel (some packet) size (dotted ls) 0 tail refl ht le
        (omega (arith, short)) in
    let same : size % 2 ^ 16 ≡ size = omega (arith, word) in
    let last : (0 + length (wire_labels ls) + 2) % 2 ^ 16 ≡ length (wire_labels ls) + 2 =
      omega (arith, total) in
    rw same (
      walk
      ∙ jump inner packet size (dotted ls) (0 + length (wire_labels ls)) high low rest up
      ∙ ap (λ r. through_pointer r (0 + length (wire_labels ls)))
          (ap (decode_labels inner (some packet) size (dotted ls) 0) there ∙ read)
      ∙ ap (decoded (dotted ls ++ t)) last)
