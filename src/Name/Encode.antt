-- ===== src/Name/Encode.antt =====
-- The loop of `encode_domain` and of `code_domain` writes the split of the name, whatever the name.
use faster_config.Base.{
  ℕ, zero, suc, ◌+◌, ◌-◌, ◌%◌, ◌<◌, none, some, List, [], ◌∷◌, ◌++◌, append_assoc, Bytes,
  Option-cases, length, take, drop, All, length-append, length-take, length-drop,
  drop-length-append, drop-drop, ◌≡◌, refl, inl, inr, arith,
}
use mathlib.Core.Option
use faster_config.Name.{dot, find_char, find, write_labels, write_last, encode_domain, code_domain}
use faster_config.Name.Labels.{
  split, split-some, split-none, split-cons, join, join-split, IsLabel, read_labels,
  read_labels-wire_name, wire_name, onto_head,
}

-- One round of the loop, by what `find` gives.
write_labels-none :
    (fuel : ℕ) (domain : Bytes) (start : ℕ) (buffer : Bytes)
    → find_char dot (drop start domain) ≡ none
    → write_labels (suc fuel) domain start buffer ≡ some (buffer, start)
unfolding write_labels find
write_labels-none fuel domain start buffer n = rw (n, write_labels, find)

write_labels-some :
    (fuel : ℕ) (domain : Bytes) (start : ℕ) (buffer : Bytes) (i : ℕ)
    → find_char dot (drop start domain) ≡ some i
    → write_labels (suc fuel) domain start buffer
      ≡ write_labels fuel domain (start + i + 1) (buffer ++ i % 256 ∷ take i (drop start domain))
unfolding write_labels find
write_labels-some fuel domain start buffer i e =
    let sub : start + i - start ≡ i = omega arith in rw (e, write_labels, find) (rw sub)

write_labels-split :
    (fuel : ℕ) (domain : Bytes) (start : ℕ) (buffer : Bytes)
    → length (drop start domain) < fuel
    → Option.map (write_last domain) (write_labels fuel domain start buffer)
      ≡ some (buffer ++ wire_name (split (drop start domain)))
unfolding wire_name write_last
write_labels-split zero domain start buffer h = absurd (omega arith)
write_labels-split (suc fuel) domain start buffer h =
    elim (Option-cases (find_char dot (drop start domain))) [
      | inl n ↦
          unfold wire_name write_last in
          rw (
            write_labels-none fuel domain start buffer n,
            split-none (drop start domain) n,
            length-drop start domain,
          )
      | inr (i, e) ↦
          let (lt, parts) = split-some (drop start domain) i e in
          let next : drop (suc i) (drop start domain) ≡ drop (start + i + 1) domain =
            drop-drop start (suc i) (start + i + 1) domain (omega arith) in
          let shorter : length (drop (start + i + 1) domain) < fuel =
            omega (arith, length-drop start domain, length-drop (start + i + 1) domain) in
          let size : length (take i (drop start domain)) ≡ i =
            omega (arith, length-take i (drop start domain)) in
          unfold wire_name in
          rw (
            write_labels-some fuel domain start buffer i e,
            parts,
            next,
            size,
            write_labels-split fuel domain (start + i + 1) _ shorter,
            append_assoc,
          )
    ]

-- The whole of `encode_domain`: the reference labels, and `*len` the number of octets.
pub encode_domain-wire_name :
    (buffer domain : Bytes)
    → encode_domain buffer domain
      ≡ (buffer ++ wire_name (split domain), length (wire_name (split domain)))
unfolding encode_domain
encode_domain-wire_name buffer domain =
    let whole = write_labels-split (length domain + 1) domain 0 [] (omega arith) in
    ground (arith, whole)

pub code_domain-wire_name :
    (buffer domain : Bytes) → code_domain buffer domain ≡ buffer ++ wire_name (split domain)
unfolding code_domain
code_domain-wire_name buffer domain =
    let whole = write_labels-split (length domain + 1) domain 0 buffer (omega arith) in
    ground (arith, whole)

length-wire_name-onto_head :
    (c : ℕ) (l : Bytes) (ls : List Bytes)
    → length (wire_name (onto_head c (l ∷ ls))) ≡ suc (length (wire_name (l ∷ ls)))
unfolding wire_name
length-wire_name-onto_head c l ls = refl

-- The octets that a name takes: two more than its characters.
pub length-wire_name-split : (s : Bytes) → length (wire_name (split s)) ≡ length s + 2
unfolding split wire_name
length-wire_name-split [] = refl
length-wire_name-split (c ∷ s) =
    let (l, ls, h) = split-cons s in
    let e : length (wire_name (onto_head c (split s))) ≡ suc (length (wire_name (split s))) =
      rw h (length-wire_name-onto_head c l ls) in
    ground (arith, e, length-wire_name-split s)

pub length-lt-wire_name : (ls : List Bytes) → length ls < length (wire_name ls)
unfolding wire_name
length-lt-wire_name [] = omega arith
length-lt-wire_name (l ∷ ls) = omega (arith, length-lt-wire_name ls, length-append l (wire_name ls))

-- A name whose labels have 1 to 63 octets survives `encode_domain`: behind what the buffer held, a
-- reader of wire names finds the labels between the dots and stops at what follows, the labels joined
-- by dots are the name, and `*len` is two more than its length.
pub read_labels-encode_domain :
    (buffer s rest : Bytes)
    → All IsLabel (split s)
    → (read_labels (length s + 2) (drop (length buffer) ((encode_domain buffer s).0 ++ rest))
        ≡ some (split s, rest))
      × (join (split s) ≡ s)
      × ((encode_domain buffer s).1 ≡ length s + 2)
read_labels-encode_domain buffer s rest labels =
    let w = wire_name (split s) in
    let back =
      read_labels-wire_name (split s) rest (length s + 2)
        (omega (arith, length-lt-wire_name (split s), length-wire_name-split s)) labels in
    rw encode_domain-wire_name (
      rw (append_assoc, drop-length-append buffer (w ++ rest)) back,
      join-split s,
      length-wire_name-split s,
    )
