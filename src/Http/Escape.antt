-- ===== src/Http/Escape.antt =====
-- src/httpd.cpp: `_httpd_escape`, `httpdUrlEncode`, `_httpd_unescape` and `_httpd_from_hex`. A `char`
-- is its bit pattern, below 256, so sums and products are taken modulo 256.
pub mod RoundTrip
use faster_config.Base.{
  ℕ, zero, suc, ◌+◌, ◌-◌, ◌*◌, ◌/◌, ◌%◌, ◌^◌, ◌≤◌, ◌<◌, min, Option, none, some, List, [], ◌∷◌,
  ◌++◌, map, append-nil, append_assoc, Bytes, codes, str_eq, str_eq_iff, str_eq_self, IsByte, Bool,
  true, false, not, ◌&&◌, ◌||◌, ◌==◌, ==_iff, ltb, leb, if◌then◌else◌, field, ltb→lt, lt→ltb,
  leb→le, le→leb, tests, Bool-cases, Option-cases, ◌>>=◌, length, get_elem?, get_or, take, drop,
  replicate, All, memcpy, length-append, take-append-drop, length-take, length-drop,
  length-replicate, length-map, All-append, take-length-append, drop-length-append, drop-nil,
  drop-drop, length-memcpy, memcpy-zero, take_all, drop-append, ◌≡◌, refl, sym, ap, ◌∙◌, subst, ◌≢◌,
  ◌↔◌, ◌⊎◌, inl, inr, arith,
}

-- The constructor's table, for the characters from 32 to 127.
abbrev is_acceptable : Bytes
is_acceptable = row20 ++ row30 ++ letters ++ row50 ++ 0 ∷ drop 1 letters ++ row70
  where
    letters : Bytes
    letters = replicate 16 7

    row20 : Bytes
    row20 = 0 ∷ 7 ∷ 7 ∷ 0 ∷ 7 ∷ 0 ∷ 7 ∷ 7 ∷ 7 ∷ 7 ∷ 7 ∷ 6 ∷ 7 ∷ 7 ∷ 7 ∷ 4 ∷ []

    row30 : Bytes
    row30 = replicate 10 7 ++ replicate 6 0

    row50 : Bytes
    row50 = replicate 11 7 ++ 0 ∷ 0 ∷ 0 ∷ 0 ∷ 7 ∷ []

    row70 : Bytes
    row70 = replicate 11 7 ++ replicate 5 0

-- `ACCEPTABLE(a)` under the mask `URL_XPALPHAS`, which is 2.
unfoldable pub acceptable : ℕ → Bool
acceptable a =
    not (a == b'&') && leb 32 a && ltb a 128 && field (get_or is_acceptable (a - 32) 0) 1 1 == 1

-- `hex[n]`.
unfoldable pub hex : ℕ → ℕ
hex n = get_or (codes "0123456789ABCDEF") n 0

-- What one round of the second loop of `_httpd_escape` writes.
unfoldable pub escape_byte : ℕ → Bytes
escape_byte a =
    if not (acceptable a) then b'%' ∷ hex (field a 4 4) ∷ hex (field a 0 4) ∷ [] else a ∷ []

unfoldable pub escape : Bytes → Bytes
escape [] = []
escape (c ∷ s) = escape_byte c ++ escape s

-- What the first loop finds: the size of the array that is allocated.
unfoldable pub escape_size : Bytes → ℕ
escape_size [] = 1
escape_size (c ∷ s) = (if not (acceptable c) then 3 else 1) + escape_size s

-- `httpdUrlEncode`.
unfoldable pub url_encode : Bytes → Bytes
url_encode s = map (λ c. if c == b' ' then b'+' else c) (escape s)

-- `_httpd_from_hex`.
unfoldable pub from_hex : ℕ → ℕ
from_hex c =
    if leb b'0' c && leb c b'9'
    then c - b'0'
    else if leb b'A' c && leb c b'F'
    then c - b'A' + 10
    else (c + 256 - b'a' + 10) % 256

-- Where `_httpd_unescape` stands: at a character, behind a '%', or behind its first digit, which has
-- set `*q`.
pub data Mode : Type 0 where
  plain percent : Mode
  digit : ℕ → Mode

-- The loop, over the text left at `p`; `out` is the text before `q`. If the text ends at a '%', `*q`
-- is the character that stood there.
unfoldable pub unescape_from : Bytes → Mode → Bytes → Bytes → Bytes
unescape_from str plain out [] = out
unescape_from str percent out [] = out ++ get_or str (length out) 0 ∷ []
unescape_from str (digit v) out [] = out ++ v ∷ []
unescape_from str percent out (c ∷ s) = unescape_from str (digit (from_hex c * 16 % 256)) out s
unescape_from str (digit v) out (c ∷ s) =
    unescape_from str plain (out ++ (v + from_hex c) % 256 ∷ []) s
unescape_from str plain out (c ∷ s) =
    unescape_from str (if c == b'%' then percent else plain)
      (if c == b'%' then out else out ++ (if c == b'+' then b' ' else c) ∷ []) s

-- `_httpd_unescape`; `none` is a null pointer.
unfoldable pub unescape : Option Bytes → Bytes
unfolding unescape_from
unescape none = []
unescape (some str) = unescape_from str plain [] str
