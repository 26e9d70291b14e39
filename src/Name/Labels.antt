-- ===== src/Name/Labels.antt =====
-- The label loops of `encode_domain` and `code_domain` against a split at the dots and a reader of
-- wire names that is written from RFC 1035, 3.1.
use faster_config.Base.{
  ℕ, zero, suc, ◌%◌, ◌<◌, Option, none, some, List, [], ◌∷◌, ◌++◌, append_assoc, Bytes, ◌&&◌, ◌==◌,
  ==_iff, ltb, leb, if◌then◌else◌, Bool-cases, Option-cases, length, take, drop, All, length-append,
  take-length-append, drop-length-append, ◌≡◌, refl, sym, ap, ◌∙◌, inl, inr, arith,
}
use mathlib.Core.Option
use faster_config.Name.{dot, find_char}

-- One more character for the first label.
abbrev pub onto_head : ℕ → List Bytes → List Bytes
onto_head c [] = (c ∷ []) ∷ []
onto_head c (l ∷ ls) = (c ∷ l) ∷ ls

-- The labels of a name in dots.
unfoldable pub split : Bytes → List Bytes
split [] = [] ∷ []
split (c ∷ s) = if c == dot then [] ∷ split s else onto_head c (split s)

-- A label on the wire.
abbrev pub wire_label : Bytes → Bytes
wire_label l = length l % 256 ∷ l

-- A whole name on the wire.
unfoldable pub wire_name : List Bytes → Bytes
wire_name [] = 0 ∷ []
wire_name (l ∷ ls) = wire_label l ++ wire_name ls

-- Reads labels up to the octet of the root, and returns what follows it.
unfoldable pub read_labels : ℕ → Bytes → Option (List Bytes × Bytes)
read_labels zero s = none
read_labels (suc fuel) [] = none
read_labels (suc fuel) (n ∷ s) =
    let more = read_labels fuel (drop n s) in
    if n == 0
    then some ([], s)
    else if ltb n 64 && leb n (length s)
    then Option.map (λ (ls, rest). (take n s ∷ ls, rest)) more
    else none

-- A label that the wire can carry.
abbrev pub IsLabel : Bytes → Type 0
IsLabel l = (0 < length l) × (length l < 64)

-- Reading a name off the wire gives its labels back, and leaves what follows it.
pub read_labels-wire_name :
    (ls : List Bytes) (rest : Bytes) (fuel : ℕ)
    → length ls < fuel
    → All IsLabel ls
    → read_labels fuel (wire_name ls ++ rest) ≡ some (ls, rest)
unfolding read_labels wire_name
read_labels-wire_name ls rest zero h labels = absurd (omega arith)
read_labels-wire_name [] rest (suc fuel) h labels = refl
read_labels-wire_name (l ∷ ls) rest (suc fuel) h (hl, hls) =
    let tail = wire_name ls ++ rest in
    let e : length l % 256 ≡ length l = omega arith in
    rw
      (
        e,
        append_assoc,
        take-length-append l tail,
        drop-length-append l tail,
        read_labels-wire_name ls rest fuel (omega arith) hls,
      )
      (ground (arith, length-append l tail))

-- At a dot: the label before it, and the labels behind it.
pub split-some :
    (s : Bytes) (i : ℕ)
    → find_char dot s ≡ some i
    → (i < length s) × (split s ≡ take i s ∷ split (drop (suc i) s))
unfolding find_char split
split-some [] i h = cc
split-some (c ∷ s) i h = elim (Bool-cases (c == dot)) [
  | inl e ↦ ground arith
  | inr e ↦ elim (Option-cases (find_char dot s)) [
    | inl n ↦ ground arith
    | inr (j, f) ↦ let rest = split-some s j f in ground arith
  ]
]

pub split-none : (s : Bytes) → find_char dot s ≡ none → split s ≡ s ∷ []
unfolding find_char split
split-none [] h = refl
split-none (c ∷ s) h = ground (arith, split-none s)

pub split-cons : (s : Bytes) → (l : Bytes) × (ls : List Bytes) × (split s ≡ l ∷ ls)
unfolding split
split-cons [] = ([], [], refl)
split-cons (c ∷ s) = elim (Bool-cases (c == dot)) [
  | inl e ↦ ([], split s, rw e)
  | inr e ↦ let (l, ls, h) = split-cons s in (c ∷ l, ls, rw (e, h))
]

-- Labels joined by dots.
unfoldable pub join : List Bytes → Bytes
join [] = []
join (l ∷ []) = l
join (l ∷ m ∷ ls) = l ++ dot ∷ join (m ∷ ls)

join-onto_head :
    (c : ℕ) (l : Bytes) (ls : List Bytes) → join (onto_head c (l ∷ ls)) ≡ c ∷ join (l ∷ ls)
unfolding join
join-onto_head c l [] = refl
join-onto_head c l (m ∷ ls) = refl

join-nil_cons : (l : Bytes) (ls : List Bytes) → join ([] ∷ l ∷ ls) ≡ dot ∷ join (l ∷ ls)
unfolding join
join-nil_cons l ls = refl

pub join-split : (s : Bytes) → join (split s) ≡ s
unfolding split
join-split [] = unfold join in refl
join-split (c ∷ s) =
    let (l, ls, h) = split-cons s in
    let whole : join (l ∷ ls) ≡ s = rw h at (join-split s) in
    elim (Bool-cases (c == dot)) [
      | inl e ↦
          rw (e, h)
            (join-nil_cons l ls
              ∙ ap (λ t. dot ∷ t) whole
              ∙ ap (λ d. d ∷ s) (sym ((==_iff c dot).0 e)))
      | inr e ↦ rw (e, h) (join-onto_head c l ls ∙ ap (λ t. c ∷ t) whole)
    ]
