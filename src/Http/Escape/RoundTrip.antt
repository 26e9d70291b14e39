-- ===== src/Http/Escape/RoundTrip.antt =====
-- Escaping fills its array exactly, and unescaping undoes it but for a plus.
use faster_config.Base.{
  ℕ, zero, suc, ◌+◌, ◌*◌, ◌%◌, ◌<◌, some, [], ◌∷◌, ◌++◌, map, append-nil, append_assoc, Bytes,
  IsByte, Bool, true, not, ◌&&◌, ◌==◌, if◌then◌else◌, field, length, All, ◌≡◌, refl, sym, ◌∙◌,
  arith,
}
use mathlib.Core.List.{map-append}
use faster_config.Http.Escape.{
  acceptable, hex, escape_byte, escape, escape_size, url_encode, from_hex, plain, unescape_from,
  unescape,
}

-- `_httpd_escape` writes as many characters as its first loop has counted, the terminator included:
-- the copy stays in its array and leaves nothing of it over.
pub length-escape : (s : Bytes) → length (escape s) + 1 ≡ escape_size s
unfolding escape escape_size escape_byte
length-escape [] = refl
length-escape (c ∷ s) = ground (arith, length-escape s)

-- Every byte below `n` passes a test.
unfoldable pub holds_below : ℕ → (ℕ → Bool) → Bool
holds_below zero p = true
holds_below (suc n) p = p n && holds_below n p

pub holds_below_at : (n : ℕ) (p : ℕ → Bool) (x : ℕ) → holds_below n p ≡ true → x < n → p x ≡ true
unfolding holds_below
holds_below_at zero p x h lt = absurd (omega arith)
holds_below_at (suc n) p x h lt = ground (arith, holds_below_at n p x)

-- How a single byte comes back.
abbrev pub plus_to_space : ℕ → ℕ
plus_to_space c = if c == b'+' then b' ' else c

-- The value of the two digits that stand for `c`.
abbrev decoded : ℕ → ℕ
decoded c = (from_hex (hex (field c 4 4)) * 16 % 256 + from_hex (hex (field c 0 4))) % 256

-- What is tested of each byte: one that stands for itself is no '%', and the digits of any other give
-- it back.
abbrev passes : ℕ → Bool
passes c = if acceptable c then not (c == b'%') else decoded c == c && not (c == b'+')

table : holds_below 256 passes ≡ true
unfolding holds_below from_hex acceptable hex
table = refl

unescape_from-escape_byte :
    (c : ℕ) (str out rest : Bytes)
    → c < 256
    → unescape_from str plain out (escape_byte c ++ rest)
      ≡ unescape_from str plain (out ++ plus_to_space c ∷ []) rest
unfolding unescape_from escape_byte
unescape_from-escape_byte c str out rest h =
    let ok = holds_below_at 256 passes c table h in ground (arith, ok)

-- Escaping leaves no space, so the loop of `httpdUrlEncode` finds nothing to change.
space_table :
    holds_below 256 (λ c.
      not (hex (field c 4 4) == b' ')
      && not (hex (field c 0 4) == b' ')
      && not (acceptable c && c == b' '))
    ≡ true
unfolding holds_below acceptable hex
space_table = refl

abbrev pub no_space : ℕ → ℕ
no_space c = if c == b' ' then b'+' else c

map-escape_byte : (c : ℕ) → c < 256 → map no_space (escape_byte c) ≡ escape_byte c
unfolding escape_byte
map-escape_byte c h = let ok = holds_below_at 256 _ c space_table h in ground (arith, ok)

pub map-escape : (s : Bytes) → All IsByte s → map no_space (escape s) ≡ escape s
unfolding escape
map-escape [] h = refl
map-escape (c ∷ s) h =
    rw (map-append no_space (escape_byte c) (escape s), map-escape_byte c h.0, map-escape s h.1)

unescape_from-escape :
    (s str out : Bytes)
    → All IsByte s
    → unescape_from str plain out (escape s) ≡ out ++ map plus_to_space s
unfolding escape
unescape_from-escape [] str out h = unfold unescape_from in sym (append-nil out)
unescape_from-escape (c ∷ s) str out h =
    unescape_from-escape_byte c str out (escape s) h.0
    ∙ unescape_from-escape s str (out ++ plus_to_space c ∷ []) h.1
    ∙ append_assoc out (plus_to_space c ∷ []) (map plus_to_space s)

-- Reading back what `httpdUrlEncode` has written gives the text again, whatever bytes it holds,
-- except that each plus comes back as a space.
pub unescape-url_encode :
    (s : Bytes) → All IsByte s → unescape (some (url_encode s)) ≡ map plus_to_space s
unfolding unescape url_encode
unescape-url_encode s h = rw (map-escape s h) (unescape_from-escape s (escape s) [] h)
