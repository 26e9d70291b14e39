-- ===== src/Lookup/Tokens.antt =====
-- src/DNSLookup.cpp: the tokens of a name without empty labels are its labels.
use faster_config.Base.{
  ℕ, ◌+◌, ◌%◌, ◌^◌, ◌<◌, leb, List, [], ◌∷◌, ◌++◌, append-nil, append_assoc, Bytes, ◌==◌, ltb,
  false, Bool-cases, inl, inr, length, All, ◌≡◌, refl, sym, ap, subst, ◌∙◌, arith,
}
use faster_config.Name.{dot}
use faster_config.Name.Labels.{split, onto_head, wire_name, IsLabel, split-cons}
use faster_config.Lookup.{
  flush, labels_from, with_tokens, write_tokens, encoded, encode_dot_str, encoded_string,
}

-- The rest of a token in front of labels.
abbrev flush_head : Bytes → List Bytes → List Bytes
flush_head w [] = flush w []
flush_head w (l ∷ ls) = flush (w ++ l) ls

abbrev behind_head : List Bytes → List Bytes
behind_head [] = []
behind_head (l ∷ ls) = ls

flush_head-onto_head :
    (w : Bytes) (c : ℕ) (ls : List Bytes)
    → flush_head w (onto_head c ls) ≡ flush_head (w ++ c ∷ []) ls
flush_head-onto_head w c [] = refl
flush_head-onto_head w c (l ∷ ls) = ap (λ t. flush t ls) (sym (append_assoc w (c ∷ []) l))

behind_head-onto_head : (c : ℕ) (ls : List Bytes) → behind_head (onto_head c ls) ≡ behind_head ls
behind_head-onto_head c [] = refl
behind_head-onto_head c (l ∷ ls) = refl

flush_head-All : (ls : List Bytes) → All IsLabel ls → flush_head [] ls ≡ ls
flush_head-All [] h = refl
flush_head-All ([] ∷ ls) h = absurd (omega (arith, h.0.0))
flush_head-All ((c ∷ l) ∷ ls) h = refl

behind_head-All : (ls : List Bytes) → All IsLabel ls → All IsLabel (behind_head ls)
behind_head-All [] h = tt
behind_head-All (l ∷ ls) h = h.1

labels_from-split :
    (s w : Bytes) → All IsLabel (behind_head (split s)) → labels_from w s ≡ flush_head w (split s)
unfolding split labels_from
labels_from-split [] w h = ap (λ t. flush t []) (sym (append-nil w))
labels_from-split (c ∷ s) w h = elim (Bool-cases (c == dot)) [
  | inl d ↦
      let all : All IsLabel (split s) = rw d at h in
      let rest =
        labels_from-split s [] (behind_head-All (split s) all) ∙ flush_head-All (split s) all in
      rw (d, append-nil) (ap (flush w) rest)
  | inr d ↦
      let all : All IsLabel (behind_head (onto_head c (split s))) = rw d at h in
      let rest =
        labels_from-split s (w ++ c ∷ [])
          (subst (All IsLabel) (behind_head-onto_head c (split s)) all) in
      rw d (rest ∙ sym (flush_head-onto_head w c (split s)))
]

write_tokens-wire_name : (ls : List Bytes) → write_tokens ls ≡ wire_name ls
unfolding write_tokens wire_name
write_tokens-wire_name [] = refl
write_tokens-wire_name (l ∷ ls) = let rest = write_tokens-wire_name ls in rw rest

tokens-split : (s : Bytes) → All IsLabel (split s) → labels_from [] s ≡ split s
tokens-split s h = labels_from-split s [] (behind_head-All (split s) h) ∙ flush_head-All (split s) h

encoded_string-wire_name : (ls : List Bytes) → All IsLabel ls → encoded_string ls ≡ wire_name ls
unfolding encoded_string wire_name
encoded_string-wire_name [] h = refl
encoded_string-wire_name (l ∷ ls) (hl, hs) =
    let rest = encoded_string-wire_name ls hs in
    let some_octets : (length l % 256 == 0) ≡ false = ground (arith, hl.0, hl.1) in
    rw (some_octets, rest)

-- The string that `SendDNSRequest` copies for a name whose labels the wire can carry.
pub encoded_string-split :
    (s : Bytes) → All IsLabel (split s) → encoded_string (labels_from [] s) ≡ wire_name (split s)
encoded_string-split s h =
    ap encoded_string (tokens-split s h) ∙ encoded_string-wire_name (split s) h

with_tokens-cons :
    (l : Bytes) (ls : List Bytes) → with_tokens (l ∷ ls) ≡ encoded (wire_name (l ∷ ls))
with_tokens-cons l ls = ap encoded (write_tokens-wire_name (l ∷ ls))

with_tokens-split : (s : Bytes) → with_tokens (split s) ≡ encoded (wire_name (split s))
unfolding split
with_tokens-split [] = with_tokens-cons [] []
with_tokens-split (c ∷ s) = let (l, ls, q) = split-cons (c ∷ s) in rw q (with_tokens-cons l ls)

-- What `EncodeDotStr` writes for a name whose labels the wire can carry. The size that is given, two
-- more than the name has characters, is a 16-bit value.
pub encode_dot_str-wire_name :
    (s : Bytes)
    → All IsLabel (split s)
    → length s + 2 < 2 ^ 16
    → encode_dot_str s (length s % 2 ^ 16 + 2) ≡ encoded (wire_name (split s))
unfolding encode_dot_str
encode_dot_str-wire_name s h short =
    let fits : ltb ((length s % 2 ^ 16 + 2) % 2 ^ 16) (length s % 2 ^ 16 + 2) ≡ false =
      ground (arith, short) in
    let copied : leb (2 ^ 16) (length s) ≡ false = ground (arith, short) in
    rw (fits, copied) (ap with_tokens (tokens-split s h) ∙ with_tokens-split s)
