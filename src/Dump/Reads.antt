-- ===== src/Dump/Reads.antt =====
-- src/dnsserver.cpp and src/message.cpp: the bytes of a dump, read back by a reader that knows words,
-- blanks and colons only.
use faster_config.Base.{
  ℕ, zero, suc, ◌+◌, ◌*◌, ◌-◌, ◌/◌, ◌%◌, ◌<◌, [], ◌∷◌, ◌++◌, append-nil, append_assoc, Bytes, codes,
  IsByte, Bool, true, false, Bool-cases, inl, inr, not, ◌&&◌, ◌||◌, ◌==◌, ==_iff, leb, ltb,
  if◌then◌else◌, field, get_or, All, ◌≡◌, refl, sym, ap, ◌∙◌, arith,
}
use faster_config.Iptable.{digits, decimal}
use faster_config.Http.Escape.RoundTrip.{holds_below, holds_below_at}
use faster_config.Http.Request.Text.{all, all-append}
use faster_config.Dump.{hex_byte, two_wide, line_start, dump_from, rule}

abbrev value : ℕ → ℕ
value c = if leb c b'9' then c - b'0' else c - b'a' + 10

-- A word with the bytes behind it.
abbrev byte_of : Bytes → Bytes → Bytes
byte_of [] rest = rest
byte_of (a ∷ []) rest = rest
byte_of (a ∷ b ∷ []) rest = (value a * 16 + value b) ∷ rest
byte_of (a ∷ b ∷ c ∷ w) rest = rest

abbrev is_blank : ℕ → Bool
is_blank c = c == b' ' || c == b'\n'

abbrev in_word : ℕ → Bool
in_word c = not (c == b'-') && not (c == b':') && not (is_blank c)

-- The bytes up to the rule: a word before a colon is an offset, one before a blank a byte.
unfoldable pub read_dump : Bytes → Bytes → Bytes
read_dump word [] = []
read_dump word (c ∷ s) =
    let offset = read_dump [] s in
    let longer = read_dump (word ++ c ∷ []) s in
    if c == b'-'
    then []
    else if c == b':'
    then offset
    else if is_blank c
    then byte_of word offset
    else longer

read_dump-word :
    (word w s : Bytes) → all in_word w ≡ true → read_dump word (w ++ s) ≡ read_dump (word ++ w) s
unfolding all read_dump
read_dump-word word [] s h = ap (λ v. read_dump v s) (sym (append-nil word))
read_dump-word word (c ∷ w) s h =
    let a : (c == b'-') ≡ false = ground (arith, h) in
    let b : (c == b':') ≡ false = ground (arith, h) in
    let d : is_blank c ≡ false = ground (arith, h) in
    let rest = read_dump-word (word ++ c ∷ []) w s (ground (arith, h)) in
    rw (read_dump, a) (rw b (rw d (rest ∙ ap (λ v. read_dump v s) (append_assoc word (c ∷ []) w))))

all-digits : (fuel n : ℕ) → all in_word (digits fuel n) ≡ true
unfolding all digits
all-digits zero n = refl
all-digits (suc fuel) n =
    let digit : in_word (b'0' + n % 10) ≡ true = ground arith in
    let last : all in_word ((b'0' + n % 10) ∷ []) ≡ true = rw digit refl in
    elim (Bool-cases (ltb n 10)) [
      | inl one ↦ rw (digits, one) last
      | inr more ↦
          rw (digits, more)
            (all-append in_word (digits fuel (n / 10)) ((b'0' + n % 10) ∷ [])
              (all-digits fuel (n / 10)) last)
    ]

all-two_wide : (n : ℕ) → all in_word (two_wide n) ≡ true
unfolding all two_wide decimal
all-two_wide n = elim (Bool-cases (ltb n 10)) [
  | inl one ↦ rw (two_wide, one) (all-digits 10 n)
  | inr more ↦ rw (two_wide, more) (all-digits 10 n)
]

read_dump-line_start : (i : ℕ) (s : Bytes) → read_dump [] (line_start i ++ s) ≡ read_dump [] s
unfolding read_dump line_start
read_dump-line_start i s = elim (Bool-cases (i % 10 == 0)) [
  | inr other ↦ rw (line_start, other) refl
  | inl start ↦
      let word = read_dump-word [] (two_wide i) (b':' ∷ b' ' ∷ s) (all-two_wide i) in
      rw (line_start, start)
        (ap (λ t. read_dump [] t) (append_assoc (two_wide i) (codes ": ") s) ∙ word)
]

abbrev passes : ℕ → Bool
passes c =
    all in_word (hex_byte c)
    && (value (get_or (codes "0123456789abcdef") (field c 4 4) 0) * 16
          + value (get_or (codes "0123456789abcdef") (field c 0 4) 0)
        == c)

table : holds_below 256 passes ≡ true
unfolding holds_below all hex_byte
table = refl

read_dump-hex_byte :
    (c : ℕ) (s : Bytes) → c < 256 → read_dump [] (hex_byte c ++ b' ' ∷ s) ≡ c ∷ read_dump [] s
unfolding read_dump hex_byte
read_dump-hex_byte c s h =
    let ok = holds_below_at 256 passes c table h in
    let plain : all in_word (hex_byte c) ≡ true = ground (arith, ok) in
    let same : (value (get_or (codes "0123456789abcdef") (field c 4 4) 0) * 16
            + value (get_or (codes "0123456789abcdef") (field c 0 4) 0)
          == c)
        ≡ true =
      ground (arith, ok) in
    read_dump-word [] (hex_byte c) (b' ' ∷ s) plain
    ∙ ap (λ k. k ∷ read_dump [] s) ((==_iff _ _).0 same)

-- The dump shows every byte of the buffer in order: it is read back from the lines between the rules.
pub read_dump-dump_from :
    (i : ℕ) (buffer : Bytes)
    → All IsByte buffer
    → read_dump [] (dump_from i buffer ++ b'\n' ∷ rule) ≡ buffer
unfolding read_dump dump_from
read_dump-dump_from i [] h = refl
read_dump-dump_from i (c ∷ buffer) (hc, h) =
    let rest : Bytes = dump_from (i + 1) buffer in
    let tail : Bytes = b'\n' ∷ rule in
    ap (λ t. read_dump [] t) (append_assoc (line_start i) (hex_byte c ++ b' ' ∷ rest) tail)
    ∙ read_dump-line_start i ((hex_byte c ++ b' ' ∷ rest) ++ tail)
    ∙ ap (λ t. read_dump [] t) (append_assoc (hex_byte c) (b' ' ∷ rest) tail)
    ∙ read_dump-hex_byte c (rest ++ tail) hc
    ∙ ap (λ t. c ∷ t) (read_dump-dump_from (i + 1) buffer h)
