-- ===== src/Http/Reader/Lines.antt =====
-- src/httpd.cpp: the lines that `_httpd_readLine` finds depend on what arrives, not on how the reads
-- cut it.
use faster_config.Base.{
  ℕ, zero, suc, ◌+◌, ◌<◌, Option, none, some, List, [], ◌∷◌, ◌++◌, Bytes, false, Bool-cases, ◌==◌,
  if◌then◌else◌, length, ◌≡◌, refl, ap, ◌⊎◌, inl, inr, arith,
}
use faster_config.Http.Reader.{
  Reader, refill, read_char, arrivals, stream, ends_line, line_loop, read_line,
}

pub refill-cases :
    (reads : List Bytes)
    → ((refill reads ≡ none) × (arrivals reads ≡ []))
      ⊎ ((c : ℕ) × (r : Reader) × (refill reads ≡ some (c, r)) × (arrivals reads ≡ c ∷ stream r))
unfolding refill arrivals stream
refill-cases [] = inl (refl, refl)
refill-cases ([] ∷ reads) = inl (refl, refl)
refill-cases ((c ∷ chunk) ∷ reads) = inr (c, _, refl, refl)

chars-cases :
    (ready : Bytes) (reads : List Bytes) (r : Reader)
    → r ≡ record { ready = ready; reads = reads }
    → ((read_char r ≡ none) × (stream r ≡ []))
      ⊎ ((c : ℕ) × (r' : Reader) × (read_char r ≡ some (c, r')) × (stream r ≡ c ∷ stream r'))
unfolding read_char stream
chars-cases [] reads r h = rw h (refill-cases reads)
chars-cases (c ∷ ready) reads r h = rw h (inr (c, _, refl, refl))

-- `_httpd_readChar` takes the first character of what arrives.
pub read_char-cases :
    (r : Reader)
    → ((read_char r ≡ none) × (stream r ≡ []))
      ⊎ ((c : ℕ) × (r' : Reader) × (read_char r ≡ some (c, r')) × (stream r ≡ c ∷ stream r'))
read_char-cases r = chars-cases r.ready r.reads r refl

-- The lines of a text, the last one only when it is ended: `more` characters can follow the next one
-- in a line, and `width` can in a new one.
abbrev pub lines_from : ℕ → ℕ → Bytes → Bytes → List Bytes
lines_from width more out [] = []
lines_from width more out (c ∷ s) =
    let fresh = lines_from width width [] s in
    let same = lines_from width more out s in
    let longer : List Bytes = elim more [
      | zero ↦ (out ++ c ∷ []) ∷ fresh
      | suc k ↦ lines_from width k (out ++ c ∷ []) s
    ] in
    if ends_line c then out ∷ fresh else if c == b'\r' then same else longer

-- What a call that begins with `out` gives, against the lines of what is still to arrive.
abbrev pub Reads : ℕ → Option (Bytes × Reader) → Bytes → List Bytes → Type 0
Reads width line s ls =
    ((line ≡ none) × (ls ≡ []))
    ⊎ ((t : Bytes) × (r : Reader) × (line ≡ some (t, r))
        × (ls ≡ t ∷ lines_from width width [] (stream r))
        × (length (stream r) < length s))

Reads-longer :
    (width : ℕ) (line : Option (Bytes × Reader)) (c : ℕ) (s : Bytes) (ls : List Bytes)
    → Reads width line s ls
    → Reads width line (c ∷ s) ls
Reads-longer width line c s ls (inl none_left) = inl none_left
Reads-longer width line c s ls (inr (t, r, e, l, lt)) = inr (t, r, e, l, omega (arith, lt))

line_full :
    (fuel : ℕ) (out : Bytes) (r : Reader) → 0 < fuel → line_loop fuel zero out r ≡ some (out, r)
unfolding line_loop
line_full zero out r h = absurd (omega arith)
line_full (suc fuel) out r h = refl

line_loop-char :
    (fuel more : ℕ) (out : Bytes) (r : Reader) (c : ℕ) (r' : Reader)
    → read_char r ≡ some (c, r')
    → ends_line c ≡ false
    → (c == b'\r') ≡ false
    → line_loop (suc fuel) (suc more) out r ≡ line_loop fuel more (out ++ c ∷ []) r'
unfolding line_loop
line_loop-char fuel more out r c r' e inside other = rw (line_loop, e) (rw inside (rw other))

-- One character in the line: `c` has been read, and `r` is what is left.
after_char :
    (width fuel more : ℕ) (out : Bytes) (c : ℕ) (r : Reader)
    → length (stream r) < fuel
    → ends_line c ≡ false
    → (c == b'\r') ≡ false
    → ((k : ℕ)
        → Reads width
            (line_loop fuel (suc k) (out ++ c ∷ []) r)
            (stream r)
            (lines_from width k (out ++ c ∷ []) (stream r)))
    → Reads width
        (line_loop fuel more (out ++ c ∷ []) r)
        (c ∷ stream r)
        (lines_from width more out (c ∷ stream r))
after_char width fuel zero out c r lt inside other ih =
    rw (lines_from, inside, other, line_full fuel (out ++ c ∷ []) r (omega (arith, lt)))
      (inr (out ++ c ∷ [], r, refl, refl, omega arith))
after_char width fuel (suc more) out c r lt inside other ih =
    rw (lines_from, inside, other) (Reads-longer width _ c _ _ (ih more))

line_loop-Reads :
    (width fuel more : ℕ) (out : Bytes) (r : Reader)
    → length (stream r) < fuel
    → Reads width
        (line_loop fuel (suc more) out r)
        (stream r)
        (lines_from width more out (stream r))
unfolding line_loop
line_loop-Reads width zero more out r h = absurd (omega arith)
line_loop-Reads width (suc fuel) more out r h = elim (read_char-cases r) [
  | inl (e, s) ↦ rw (line_loop, e, s) (inl (refl, refl))
  | inr (c, r', e, s) ↦
      let lt : length (stream r') < fuel = let k = ap length s in omega (arith, k, h) in
      elim (Bool-cases (ends_line c)) [
        | inl q ↦ rw (line_loop, e, s) (rw q (inr (out, r', refl, refl, omega arith)))
        | inr inside ↦ elim (Bool-cases (c == b'\r')) [
          | inl q ↦
              let again = line_loop-Reads width fuel more out r' lt in
              rw (line_loop, e, s) (rw inside (rw q (Reads-longer width _ c _ _ again)))
          | inr other ↦
              let ih = λ (k : ℕ). line_loop-Reads width fuel k (out ++ c ∷ []) r' lt in
              let next = after_char width fuel more out c r' lt inside other ih in
              rw (line_loop-char fuel more out r c r' e inside other, s) next
        ]
      ]
]

pub read_line-Reads :
    (width : ℕ) (r : Reader)
    → Reads width (read_line (suc width) r) (stream r) (lines_from width width [] (stream r))
unfolding read_line
read_line-Reads width r = line_loop-Reads width (length (stream r) + 1) width [] r (omega arith)
