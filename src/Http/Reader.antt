-- ===== src/Http/Reader.antt =====
-- src/httpd.cpp: `_httpd_readChar` and `_httpd_readLine`. What `_httpd_net_read` gives is a parameter:
-- the list of what its calls read, in which an empty one stands for a result below 1.
pub mod Lines
use faster_config.Base.{
  ℕ, zero, suc, ◌+◌, Option, none, some, List, [], ◌∷◌, ◌++◌, Bytes, ◌==◌, ◌||◌, leb, if◌then◌else◌,
  Bool, length,
}

-- The part of a request that reading changes: `readBufRemain` characters at `readBufPtr`, and the
-- reads still to come.
pub record Reader : Type 0 where
  pub ready : Bytes
  pub reads : List Bytes

-- The first character of the next read.
unfoldable pub refill : List Bytes → Option (ℕ × Reader)
refill [] = none
refill ([] ∷ reads) = none
refill ((c ∷ ready) ∷ reads) = some (c, record { ready = ready; reads = reads })

-- `_httpd_readChar`; `none` is the result 0.
unfoldable pub read_char : Reader → Option (ℕ × Reader)
unfolding refill
read_char r = elim r.ready [
  | [] ↦ refill r.reads
  | c ∷ ready ↦ some (c, record { ready = ready; reads = r.reads })
]

-- All that is read before the connection ends or fails.
unfoldable pub arrivals : List Bytes → Bytes
arrivals [] = []
arrivals ([] ∷ reads) = []
arrivals ((c ∷ chunk) ∷ reads) = c ∷ (chunk ++ arrivals reads)

unfoldable pub stream : Reader → Bytes
unfolding arrivals
stream r = r.ready ++ arrivals r.reads

-- `curChar == '\n' || !isascii(curChar)`.
abbrev pub ends_line : ℕ → Bool
ends_line c = c == b'\n' || leb 128 c

-- The loop, with `left` for `len - count` and `out` for what stands before `dst`. `none` is the result
-- 0, or fuel that ran out.
unfoldable pub line_loop : ℕ → ℕ → Bytes → Reader → Option (Bytes × Reader)
unfolding read_char
line_loop zero left out r = none
line_loop (suc fuel) zero out r = some (out, r)
line_loop (suc fuel) (suc left) out r = elim (read_char r) [
  | none ↦ none
  | some (c, r') ↦
      let again = line_loop fuel (suc left) out r' in
      let next = line_loop fuel left (out ++ c ∷ []) r' in
      if ends_line c then some (out, r') else if c == b'\r' then again else next
]

-- `_httpd_readLine`: the characters that are written before the terminator.
unfoldable pub read_line : ℕ → Reader → Option (Bytes × Reader)
unfolding line_loop stream
read_line len r = line_loop (length (stream r) + 1) len [] r
