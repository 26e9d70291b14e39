-- ===== src/Http/Decode/RoundTrip.antt =====
-- src/httpd.cpp: what a base64 encoder writes, `_httpd_decode` reads.
use faster_config.Base.{
  ℕ, suc, ◌+◌, ◌-◌, ◌*◌, ◌/◌, ◌%◌, ◌<◌, ◌≤◌, none, some, [], ◌∷◌, ◌++◌, Bytes, true, false, not,
  ◌||◌, ◌==◌, ltb, leb, if◌then◌else◌, length, drop, All, IsByte, take-length-append, ltb→lt,
  lt→ltb, ◌≡◌, refl, ap, ◌∙◌, arith, ◌⊎◌, inl, inr, ◌≢◌, Bool-cases,
}
use faster_config.Http.Escape.RoundTrip.{holds_below, holds_below_at}
use faster_config.Name.{find_char}
use faster_config.Http.Query.{c_string}
use faster_config.Http.Vars.{skip_blanks}
use faster_config.Http.Decode.{pr2six, dec, decode_from, decode}
use faster_config.Http.Decode.Groups.{
  digit, encode, groups, digit_count, pr2six-digit, decode_rounds-encode, length-decode_rounds,
  prefix_len-encode,
}

-- What is missing to the last group, with the character that `bufin[-2]` is then.
abbrev Tail : Bytes → Bytes → Type 0
Tail s t =
    ((digit_count s ≡ groups s * 4) × (length s ≡ groups s * 3))
    ⊎ ((digit_count s + 2 ≡ groups s * 4)
        × (length s + 2 ≡ groups s * 3)
        × (dec (encode s ++ t) (groups s * 4 - 2) ≡ 64))
    ⊎ ((digit_count s + 1 ≡ groups s * 4)
        × (length s + 1 ≡ groups s * 3)
        × (dec (encode s ++ t) (groups s * 4 - 2) < 64))

dec_later :
    (a b c d : ℕ) (t : Bytes) (g : ℕ)
    → 0 < g
    → dec (a ∷ b ∷ c ∷ d ∷ t) (suc g * 4 - 2) ≡ dec t (g * 4 - 2)
dec_later a b c d t g h =
    let e : suc g * 4 - 2 ≡ suc (suc (suc (suc (g * 4 - 2)))) = omega arith in
    ap (dec (a ∷ b ∷ c ∷ d ∷ t)) e

Tail-encode : (s t : Bytes) → All IsByte s → Tail s t
unfolding pr2six find_char
Tail-encode [] t h = inl (refl, refl)
Tail-encode (x ∷ []) t h = inr (inl (refl, refl, refl))
Tail-encode (x ∷ y ∷ []) t h =
    let c = pr2six-digit (y % 16 * 4) (omega arith) in inr (inr (refl, refl, rw c (omega arith)))
Tail-encode (x ∷ y ∷ z ∷ s) t (hx, (hy, (hz, hs))) =
    let later = λ (h : 0 < groups s).
      dec_later (digit (x / 4)) (digit (x % 4 * 16 + y / 16)) (digit (y % 16 * 4 + z / 64))
        (digit (z % 64)) (encode s ++ t) (groups s) h in
    elim (Tail-encode s t hs) [
      | inl (d, n) ↦ inl (omega (arith, d), omega (arith, n))
      | inr (inl (d, n, e)) ↦
          inr (inl (omega (arith, d), omega (arith, n), later (omega (arith, n)) ∙ e))
      | inr (inr (d, n, e)) ↦
          inr (inr (omega (arith, d), omega (arith, n), rw (later (omega (arith, n))) e))
    ]

c_string_self : (s : Bytes) → All (λ c. c ≢ 0) s → c_string s ≡ s
unfolding c_string
c_string_self [] h = refl
c_string_self (c ∷ s) (hc, hs) = let e = c_string_self s hs in ground (arith, e)

blank_table : holds_below 64 (λ n. not (digit n == b' ' || digit n == b'\t')) ≡ true
unfolding holds_below
blank_table = refl

skip_blanks-digit : (n : ℕ) (s : Bytes) → n < 64 → skip_blanks (digit n ∷ s) ≡ digit n ∷ s
unfolding skip_blanks
skip_blanks-digit n s h =
    let ok = holds_below_at 64 _ n blank_table h in
    let e : (digit n == b' ' || digit n == b'\t') ≡ false = ground (arith, ok) in
    rw (skip_blanks, e)

skip_blanks-encode :
    (s t : Bytes) → All IsByte s → skip_blanks (encode s ++ 0 ∷ t) ≡ encode s ++ 0 ∷ t
unfolding skip_blanks
skip_blanks-encode [] t h = refl
skip_blanks-encode (x ∷ []) t (hx, _) =
    skip_blanks-digit (x / 4) (drop 1 (encode (x ∷ []) ++ 0 ∷ t)) (omega arith)
skip_blanks-encode (x ∷ y ∷ []) t (hx, _) =
    skip_blanks-digit (x / 4) (drop 1 (encode (x ∷ y ∷ []) ++ 0 ∷ t)) (omega arith)
skip_blanks-encode (x ∷ y ∷ z ∷ s) t (hx, _) =
    skip_blanks-digit (x / 4) (drop 1 (encode (x ∷ y ∷ z ∷ s) ++ 0 ∷ t)) (omega arith)

rounds-digit_count : (s t : Bytes) → All IsByte s → (digit_count s + 3) / 4 ≡ groups s
rounds-digit_count s t h = elim (Tail-encode s t h) [
  | inl (d, _) ↦ omega (arith, d)
  | inr (inl (d, n, e)) ↦ omega (arith, d)
  | inr (inr (d, n, e)) ↦ omega (arith, d)
]

length-groups :
    (s : Bytes) → All IsByte s → (length s ≤ groups s * 3) × (groups s * 3 ≤ length s + 2)
length-groups s h = elim (Tail-encode s [] h) [
  | inl (d, n) ↦ (omega (arith, n), omega (arith, n))
  | inr (inl (d, n, e)) ↦ (omega (arith, n), omega (arith, n))
  | inr (inr (d, n, e)) ↦ (omega (arith, n), omega (arith, n))
]

-- The end that `_httpd_decode` comes to is the length of the text.
end-digit_count :
    (s t : Bytes)
    → All IsByte s
    → groups s * 3
        - (if digit_count s % 4 == 0
            then 0
            else if ltb 63 (dec (encode s ++ t) (groups s * 4 - 2))
            then 2
            else 1)
      ≡ length s
end-digit_count s t h = elim (Tail-encode s t h) [
  | inl (d, n) ↦ ground (arith, d, n)
  | inr (inl (d, n, e)) ↦ ground (arith, d, n, e)
  | inr (inr (d, n, e)) ↦ ground (arith, d, n, e)
]

decode_from-fits :
    (s t : Bytes) (n : ℕ)
    → All IsByte s
    → All (λ c. c ≢ 0) s
    → groups s * 3 ≤ n
    → length s < n
    → decode_from (encode s ++ 0 ∷ t) n (digit_count s) (groups s * 3) ≡ some s
unfolding decode_from
decode_from-fits s t n hb hz hg hl =
    let (j, e) = decode_rounds-encode s (0 ∷ t) hb in
    let rounds = rounds-digit_count s (0 ∷ t) hb in
    let end = end-digit_count s (0 ∷ t) hb in
    let len = length-decode_rounds (groups s) (encode s ++ 0 ∷ t) in
    let text = take-length-append s j in
    let whole = c_string_self s hz in
    let short : ltb n (groups s * 3) ≡ false = ground arith in
    let inside : leb n (length s) ≡ false = ground arith in
    rw (rounds) (rw (len) (rw (end) (rw (short, inside) (rw e (rw (text, whole))))))

decode_from-overflows : (s : Bytes) (end : ℕ) → decode_from s 100 133 end ≡ none
unfolding decode_from
decode_from-overflows s end = let len = length-decode_rounds 34 s in rw len

ge_of_not_ltb : (a b : ℕ) → ltb a b ≡ false → b ≤ a
ge_of_not_ltb a b h = ground arith

-- The base64 of a text without zero, ended in memory by a terminator, decodes to the text exactly if
-- the text has fewer than a hundred bytes; from a hundred on, bytes are written behind the array.
pub decode-encode :
    (s t : Bytes)
    → All IsByte s
    → All (λ c. c ≢ 0) s
    → decode (encode s ++ 0 ∷ t) 100 ≡ (if ltb (length s) 100 then some s else none)
unfolding decode
decode-encode s t hb hz =
    let blanks = skip_blanks-encode s t hb in
    let count = prefix_len-encode s t hb in
    let rounds = rounds-digit_count s (0 ∷ t) hb in
    let (low, high) = length-groups s hb in
    elim (Bool-cases (ltb (length s) 100)) [
      | inl short ↦
          let lt = ltb→lt (length s) 100 short in
          let bound : groups s * 3 ≤ 100 = omega (arith, lt, high) in
          let whole : ltb 100 (groups s * 3) ≡ false = ground arith in
          let fits = decode_from-fits s t 100 hb hz bound lt in
          rw blanks (rw count (rw rounds (rw whole (rw (fits, short)))))
      | inr long ↦
          let over : ltb 100 (groups s * 3) ≡ true =
            lt→ltb _ _ (omega (arith, low, ge_of_not_ltb (length s) 100 long)) in
          let none_fits = decode_from-overflows (encode s ++ 0 ∷ t) (groups s * 3) in
          rw blanks (rw count (rw rounds (rw over (rw (none_fits, long)))))
    ]
