-- ===== src/Http/Arp.antt =====
-- src/httpd.cpp: `arp_get`. The file is the text read, `none` when it cannot be opened; `fscanf` is
-- written out for the one format.
pub mod Table
pub mod Words
use faster_config.Base.{
  ℕ, zero, suc, ◌-◌, Option, none, some, [], ◌∷◌, Bytes, Bool, not, ◌&&◌, ◌||◌, ◌==◌, leb,
  if◌then◌else◌, length, str_eq, ◌>>=◌,
}
use faster_config.Http.Acl.{is_space, is_digit}
use faster_config.Http.Request.{span}

-- `[0-9.]` and `[A-Fa-f0-9:]`.
abbrev pub is_ip : ℕ → Bool
is_ip c = is_digit c || c == b'.'

abbrev pub is_mac : ℕ → Bool
is_mac c = is_digit c || c == b':' || ((leb b'A' c && leb c b'F') || (leb b'a' c && leb c b'f'))

-- White space of the format.
unfoldable pub skip_space : Bytes → Bytes
unfolding span
skip_space s = (span is_space s).1

-- The longest text of at most so many characters of a set, and the rest.
unfoldable pub span_most : ℕ → (ℕ → Bool) → Bytes → Bytes × Bytes
span_most zero p s = ([], s)
span_most (suc n) p [] = ([], [])
span_most (suc n) p (c ∷ s) =
    let (word, rest) = span_most n p s in if p c then (c ∷ word, rest) else ([], c ∷ s)

-- A word that was read, if it has a character at least.
abbrev pub non_empty : Bytes × Bytes → Option (Bytes × Bytes)
non_empty ([], rest) = none
non_empty (c ∷ word, rest) = some (c ∷ word, rest)

-- `%15[...]` and the like.
unfoldable pub scan_set : ℕ → (ℕ → Bool) → Bytes → Option (Bytes × Bytes)
unfolding span_most
scan_set n p s = non_empty (span_most n p s)

abbrev pub not_space : ℕ → Bool
not_space c = not (is_space c)

abbrev pub behind : Option (Bytes × Bytes) → Option Bytes
behind none = none
behind (some (word, rest)) = some rest

-- `%*s`: none at the end of the file.
unfoldable pub skip_word : Bytes → Option Bytes
unfolding span skip_space
skip_word s = behind (non_empty (span not_space (skip_space s)))

-- The two words that end a row; where they are missing, the file is at its end.
unfoldable pub skip_tail : Bytes → Bytes
unfolding skip_word
skip_tail s = elim (skip_word s) [
  | none ↦ []
  | some mask ↦ elim (skip_word mask) [ none ↦ [] | some device ↦ device ]
]

-- `fscanf` with the format of a row, if it assigns both texts: these, and what is left.
unfoldable pub scan_row : Bytes → Option (Bytes × Bytes × Bytes)
unfolding scan_set skip_word skip_tail
scan_row proc = do
  (ip, s) ← scan_set 15 is_ip (skip_space proc)
  hw_type ← skip_word s
  flags ← skip_word hw_type
  (mac, rest) ← scan_set 17 is_mac (skip_space flags)
  some (ip, mac, skip_tail rest)

-- The loop over the rows, on fuel; it gives `reply`.
unfoldable pub scan_rows : ℕ → Bytes → Bytes → Option (Option Bytes)
unfolding scan_row str_eq
scan_rows zero proc req_ip = none
scan_rows (suc fuel) proc req_ip = elim (scan_row proc) [
  | none ↦ some none
  | some (ip, mac, rest) ↦
      let later = scan_rows fuel rest req_ip in if str_eq ip req_ip then some (some mac) else later
]

-- What is left behind the first line.
unfoldable pub skip_line : Bytes → Bytes
skip_line [] = []
skip_line (c ∷ proc) = let later = skip_line proc in if c == b'\n' then proc else later

-- `arp_get`.
unfoldable pub arp_get : Option Bytes → Bytes → Option Bytes
unfolding scan_rows skip_line
arp_get none req_ip = none
arp_get (some proc) req_ip = elim (scan_rows (suc (length proc)) (skip_line proc) req_ip) [
  | none ↦ none
  | some reply ↦ reply
]
