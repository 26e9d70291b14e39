-- ===== src/Message/Query/Names.antt =====
-- src/query.cpp: what `decode_qname` makes of the names of the wire.
use faster_config.Base.{
  ℕ, zero, suc, ◌+◌, ◌%◌, ◌≤◌, ◌<◌, List, [], ◌∷◌, ◌++◌, append_assoc, Bytes, true, false, ltb,
  if◌then◌else◌, lt→ltb, length, All, length-append, take-length-append, drop-length-append, ◌≡◌,
  refl, ◌∙◌, arith,
}
use faster_config.Name.{dot}
use faster_config.Name.Labels.{wire_label, wire_name, IsLabel}
use faster_config.Message.Query.{Decoded, heap_overflow, running, done, decode_loop, decode_qname}

-- One round of the loop.
decode_loop-label :
    (fuel : ℕ) (l rest name binary : Bytes) (capacity : ℕ)
    → IsLabel l
    → decode_loop (suc fuel) (wire_label l ++ rest) name binary capacity ≡ (
        if ltb capacity (length binary + (length l + 1))
        then heap_overflow
        else decode_loop fuel rest
            (name ++ l ++ dot ∷ [])
            (binary ++ length l ∷ l)
            (length binary + (length l + 1)))
unfolding decode_loop
decode_loop-label fuel l rest name binary capacity (h1, h2) =
    let e : length l % 256 ≡ length l = omega arith in
    rw (e, take-length-append l rest, drop-length-append l rest)
      (ground (arith, length-append l rest))

fits :
    (l : Bytes) → IsLabel l → ltb (length l % 256 + 1) (length {A = ℕ} [] + (length l + 1)) ≡ false
fits l h = ground arith

last :
    (fuel : ℕ) (rest name binary : Bytes) (capacity : ℕ)
    → decode_loop (suc fuel) (0 ∷ rest) name binary capacity ≡ done (name, binary)
unfolding decode_loop
last fuel rest name binary capacity = refl

-- A name that goes on with a pointer, or with any length above 63.
decode_loop-stuck :
    (fuel n : ℕ) (s name binary : Bytes) (capacity : ℕ)
    → 64 ≤ n
    → decode_loop fuel (n ∷ s) name binary capacity ≡ running
unfolding decode_loop
decode_loop-stuck zero n s name binary capacity h = refl
decode_loop-stuck (suc fuel) n s name binary capacity h =
    ground (arith, decode_loop-stuck fuel n s name binary capacity h)

-- What is due for the labels of a name.
abbrev pub decoded_labels : List Bytes → Decoded (Bytes × Bytes)
decoded_labels [] = done ([], [])
decoded_labels (l ∷ []) = done (l ++ dot ∷ [], length l ∷ l)
decoded_labels (l ∷ m ∷ ls) = heap_overflow

-- A name of one label is decoded with a dot behind it. With a second label `memcpy` writes behind
-- the block, which `realloc` makes longer only afterwards. The name is not compressed, its labels
-- have 1 to 63 octets, and there are more rounds of fuel than labels.
pub decode_qname-wire_name :
    (fuel : ℕ) (ls : List Bytes) (rest : Bytes)
    → length ls < fuel
    → All IsLabel ls
    → decode_qname fuel (wire_name ls ++ rest) ≡ decoded_labels ls
unfolding decode_qname wire_name
decode_qname-wire_name zero ls rest h labels = absurd (omega arith)
decode_qname-wire_name (suc zero) (l ∷ ls) rest h labels = absurd (omega arith)
decode_qname-wire_name (suc fuel) [] rest h labels = unfold decode_loop in refl
decode_qname-wire_name (suc (suc fuel)) (l ∷ []) rest h (hl, hs) =
    let first = decode_loop-label (suc fuel) l (0 ∷ rest) [] [] (length l % 256 + 1) hl in
    rw (append_assoc l (0 ∷ []) rest)
      (first ∙ rw (fits l hl) (last fuel rest (l ++ dot ∷ []) (length l ∷ l) _))
decode_qname-wire_name (suc (suc fuel)) (l ∷ m ∷ ls) rest h (hl, (hm, hs)) =
    let first =
      decode_loop-label (suc fuel) l (wire_label m ++ (wire_name ls ++ rest)) [] []
        (length l % 256 + 1) hl in
    let second =
      decode_loop-label fuel m (wire_name ls ++ rest) (l ++ dot ∷ []) (length l ∷ l)
        (length {A = ℕ} [] + (length l + 1)) hm in
    let full : ltb (length {A = ℕ} [] + (length l + 1)) (suc (length l) + (length m + 1)) ≡ true =
      lt→ltb _ _ (omega arith) in
    rw (append_assoc l (wire_name (m ∷ ls)) rest, append_assoc m (wire_name ls) rest)
      (first ∙ rw (fits l hl) (second ∙ rw full))

-- A compressed name is never decoded: whatever the fuel, `decode_qname` is still running when it
-- is used up. The name starts with a pointer, or with one label of 1 to 63 octets and a pointer
-- behind it.
pub decode_qname-pointer :
    (fuel : ℕ) (l rest : Bytes) (n : ℕ)
    → 192 ≤ n
    → IsLabel l
    → (decode_qname fuel (n ∷ rest) ≡ running)
      × (decode_qname fuel (wire_label l ++ n ∷ rest) ≡ running)
unfolding decode_qname
decode_qname-pointer fuel l rest n h hl =
    (decode_loop-stuck fuel n rest [] [] (n + 1) (omega arith), behind fuel)
  where
    behind :
        (fuel : ℕ)
        → decode_loop fuel (wire_label l ++ n ∷ rest) [] [] (length l % 256 + 1) ≡ running
    behind zero = unfold decode_loop in refl
    behind (suc fuel) =
        decode_loop-label fuel l (n ∷ rest) [] [] (length l % 256 + 1) hl
        ∙ rw (fits l hl) (
            decode_loop-stuck fuel n rest (l ++ dot ∷ []) (length l ∷ l)
              (length {A = ℕ} [] + (length l + 1)) (omega arith))
