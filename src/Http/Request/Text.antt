-- ===== src/Http/Request/Text.antt =====
-- src/httpd.cpp: how the text of a request falls into lines, words and values.
use faster_config.Base.{
  ℕ, zero, suc, ◌+◌, ◌*◌, ◌/◌, ◌%◌, ◌≤◌, ◌<◌, some, [], ◌∷◌, ◌++◌, append-nil, append_assoc, Bytes,
  IsByte, Bool, true, false, not, ◌&&◌, ◌==◌, length, drop, All, memcpy-zero, length-append,
  length-memcpy, ◌≡◌, refl, ap, ◌∙◌, arith,
}
use faster_config.Http.Escape.RoundTrip.{holds_below, holds_below_at}
use faster_config.Http.Acl.{after}
use faster_config.Http.Query.{c_string}
use faster_config.Http.Reader.{ends_line}
use faster_config.Http.Reader.Lines.{lines_from}
use faster_config.Http.Decode.Groups.{digit, encode}
use faster_config.Http.Request.{span, written}

-- Every character of a text passes a test.
unfoldable pub all : (ℕ → Bool) → Bytes → Bool
all p [] = true
all p (c ∷ s) = p c && all p s

pub all-append :
    (p : ℕ → Bool) (s t : Bytes) → all p s ≡ true → all p t ≡ true → all p (s ++ t) ≡ true
unfolding all
all-append p [] t hs ht = ht
all-append p (c ∷ s) t hs ht = ground (arith, all-append p s t)

pub all-implies :
    (p r : ℕ → Bool) (s : Bytes)
    → ((c : ℕ) → p c ≡ true → r c ≡ true)
    → all p s ≡ true
    → all r s ≡ true
unfolding all
all-implies p r [] h hs = refl
all-implies p r (c ∷ s) h hs =
    let here = h c (ground (arith, hs)) in
    let later = all-implies p r s h (ground (arith, hs)) in rw (here, later)

-- No end of a line, and no '\r', which a line does not keep.
abbrev pub in_line : ℕ → Bool
in_line c = not (ends_line c) && not (c == b'\r')

pub span-append :
    (p : ℕ → Bool) (s : Bytes) (c : ℕ) (t : Bytes)
    → all p s ≡ true
    → p c ≡ false
    → span p (s ++ c ∷ t) ≡ (s, c ∷ t)
unfolding all span
span-append p [] c t hs hc = rw (span, hc)
span-append p (d ∷ s) c t hs hc =
    let here : p d ≡ true = ground (arith, hs) in
    let later = span-append p s c t (ground (arith, hs)) hc in rw (here, later)

pub after-append :
    (c : ℕ) (s t : Bytes) → all (λ d. not (d == c)) s ≡ true → after c (s ++ c ∷ t) ≡ some t
unfolding all after
after-append c [] t h = ground arith
after-append c (d ∷ s) t h =
    let here : (d == c) ≡ false = ground (arith, h) in
    let later = after-append c s t (ground (arith, h)) in rw (here, later)

pub c_string-ended : (s t : Bytes) → all (λ c. not (c == 0)) s ≡ true → c_string (s ++ 0 ∷ t) ≡ s
unfolding all c_string
c_string-ended [] t h = refl
c_string-ended (c ∷ s) t h =
    let here : (c == 0) ≡ false = ground (arith, h) in
    let later = c_string-ended s t (ground (arith, h)) in rw (here, later)

-- A line that is ended by "\r\n".
pub lines_from-line :
    (width more : ℕ) (out s t : Bytes)
    → all in_line s ≡ true
    → length s ≤ more
    → lines_from width more out (s ++ b'\r' ∷ b'\n' ∷ t) ≡ (out ++ s) ∷ lines_from width width [] t
unfolding all
lines_from-line width more out [] t h len = rw (append-nil out)
lines_from-line width zero out (c ∷ s) t h len = absurd (omega (arith, len))
lines_from-line width (suc more) out (c ∷ s) t h len =
    let inside : ends_line c ≡ false = ground (arith, h) in
    let other : (c == b'\r') ≡ false = ground (arith, h) in
    let later =
      lines_from-line width more (out ++ c ∷ []) s t (ground (arith, h)) (omega (arith, len)) in
    rw (inside, other)
      (later ∙ ap (λ u. u ∷ lines_from width width [] t) (append_assoc out (c ∷ []) s))

-- What stands in the array behind a line.
pub written-line :
    (buf line : Bytes)
    → length line < length buf
    → (stale : Bytes) × (written buf line ≡ line ++ 0 ∷ stale)
      × (length (written buf line) ≡ length buf)
written-line buf line h =
    let long = length-append line (0 ∷ []) in
    let rest : Bytes = drop (length (line ++ 0 ∷ [])) buf in
    let front = memcpy-zero buf (line ++ 0 ∷ []) (omega (arith, h, long)) in
    (rest, front ∙ append_assoc line (0 ∷ []) rest, length-memcpy buf 0 (line ++ 0 ∷ []))

digit_table : holds_below 64 (λ n. in_line (digit n)) ≡ true
unfolding holds_below
digit_table = refl

in_line-digit : (n : ℕ) → n < 64 → in_line (digit n) ≡ true
in_line-digit n h = holds_below_at 64 (λ n. in_line (digit n)) n digit_table h

pub all-encode : (s : Bytes) → All IsByte s → all in_line (encode s) ≡ true
unfolding all
all-encode [] h = refl
all-encode (x ∷ []) (hx, _) =
    let a = in_line-digit (x / 4) (omega arith) in
    let b = in_line-digit (x % 4 * 16) (omega arith) in rw (a, b)
all-encode (x ∷ y ∷ []) (hx, (hy, _)) =
    let a = in_line-digit (x / 4) (omega arith) in
    let b = in_line-digit (x % 4 * 16 + y / 16) (omega arith) in
    let c = in_line-digit (y % 16 * 4) (omega arith) in rw (a, b, c)
all-encode (x ∷ y ∷ z ∷ s) (hx, (hy, (hz, hs))) =
    let a = in_line-digit (x / 4) (omega arith) in
    let b = in_line-digit (x % 4 * 16 + y / 16) (omega arith) in
    let c = in_line-digit (y % 16 * 4 + z / 64) (omega arith) in
    let d = in_line-digit (z % 64) (omega arith) in
    let rest = all-encode s hs in rw (a, b, c, d, rest)

pub length-encode : (s : Bytes) → length (encode s) ≤ length s * 4
length-encode [] = omega arith
length-encode (x ∷ []) = omega arith
length-encode (x ∷ y ∷ []) = omega arith
length-encode (x ∷ y ∷ z ∷ s) = omega (arith, length-encode s)
