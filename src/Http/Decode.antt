-- ===== src/Http/Decode.antt =====
-- src/httpd.cpp: `_httpd_decode`, which reads the base64 of an Authorization header. A `char` is its
-- bit pattern, below 256.
pub mod Groups
pub mod RoundTrip
use Prim.Native.Nat.{bit_or}
use faster_config.Base.{
  ℕ, zero, suc, ◌+◌, ◌-◌, ◌*◌, ◌/◌, ◌%◌, Option, none, some, List, [], ◌∷◌, ◌++◌, Bytes, codes,
  Bool, true, false, not, ◌||◌, ◌==◌, ltb, leb, if◌then◌else◌, length, get_or, take, drop,
}
use faster_config.Name.{find_char}
use faster_config.Http.Vars.{skip_blanks}
use faster_config.Http.Query.{c_string}

-- `six2pr`.
abbrev pub six2pr : Bytes
six2pr = codes "ABCDEFGHIJKLMNOPQRSTUVWXYZabcdefghijklmnopqrstuvwxyz0123456789+/"

-- `pr2six[c]`, which is `_DECODE_MAXVAL + 1` for a character that is not in the table.
unfoldable pub pr2six : ℕ → ℕ
pr2six c = elim (find_char c six2pr) [ none ↦ 64 | some j ↦ j ]

-- How far `bufin` gets before the first character that is not in the table.
unfoldable pub prefix_len : Bytes → ℕ
prefix_len [] = 0
prefix_len (c ∷ s) = let rest = prefix_len s in if leb (pr2six c) 63 then suc rest else 0

-- `DEC(bufin[i])`.
abbrev pub dec : Bytes → ℕ → ℕ
dec bufin i = pr2six (get_or bufin i 0)

-- The three bytes that a round of the loop writes.
unfoldable pub decode_group : Bytes → Bytes
decode_group bufin =
    bit_or (dec bufin 0 * 4) (dec bufin 1 / 16) % 256
    ∷ bit_or (dec bufin 1 * 16) (dec bufin 2 / 4) % 256
    ∷ bit_or (dec bufin 2 * 64) (dec bufin 3) % 256
    ∷ []

-- That many rounds of the loop.
unfoldable pub decode_rounds : ℕ → Bytes → Bytes
decode_rounds zero bufin = []
decode_rounds (suc rounds) bufin = decode_group bufin ++ decode_rounds rounds (drop 4 bufin)

-- Behind `nprbytes` and `nbytesdecoded`, on the text without leading blanks. The loop takes four from
-- `nprbytes` while it is positive, so it runs as often as four goes into it, rounded up, and leaves
-- the last two bits as they were.
unfoldable pub decode_from : Bytes → ℕ → ℕ → ℕ → Option Bytes
decode_from bufcoded outbufsize nprbytes nbytesdecoded =
    let rounds : ℕ = (nprbytes + 3) / 4 in
    let bufplain : Bytes = decode_rounds rounds bufcoded in
    let cut : ℕ =
      if nprbytes % 4 == 0 then 0 else if ltb 63 (dec bufcoded (rounds * 4 - 2)) then 2 else 1 in
    let end : ℕ = nbytesdecoded - cut in
    if ltb outbufsize (length bufplain) || leb outbufsize end
    then none
    else some (c_string (take end bufplain))

-- `_httpd_decode` on what stands in memory from `bufcoded` on: the text in `bufplain`, or `none` if
-- something is written behind its `outbufsize` bytes.
unfoldable pub decode : Bytes → ℕ → Option Bytes
decode memory outbufsize =
    let bufcoded : Bytes = skip_blanks memory in
    let nprbytes : ℕ = prefix_len bufcoded in
    let nbytesdecoded : ℕ = (nprbytes + 3) / 4 * 3 in
    decode_from bufcoded outbufsize
      (if ltb outbufsize nbytesdecoded then outbufsize * 4 / 3 else nprbytes) nbytesdecoded
