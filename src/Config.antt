-- ===== src/Config.antt =====
-- src/application.h and src/application.cpp: `read_config_file` and the functions that read one line.
-- The file is its bytes.
pub mod Bounds
pub mod Entries
pub mod Lines
pub mod Numbers
pub mod RoundTrip
use faster_config.Base.{
  ℕ, zero, suc, ◌+◌, ◌-◌, ◌%◌, ◌^◌, Option, none, some, List, [], ◌∷◌, ◌++◌, Bytes, codes, ◌==◌,
  ltb, leb, Bool, true, false, ◌||◌, not, if◌then◌else◌, length,
}
use mathlib.Core.Option
use faster_config.Http.Url.{starts_with}
use faster_config.Http.Query.{c_string}
use faster_config.Http.Acl.{word, is_space, is_digit, digits_from}

abbrev pub newline : ℕ
newline = b'\n'

-- The members that the file sets. An `int` is its 32 bits, `none` an indeterminate one.
pub record Config : Type 0 where
  pub dns_port : Option ℕ
  pub dns_ip : Bytes
  pub http_port : Option ℕ
  pub re_url : Bytes
  pub gateway_ip : Bytes
  pub error_html : Bytes
  pub lockfile : Bytes
  pub sta_interface : Bytes
  pub ap_interface : Bytes

-- The keys, in the order of the tests.
pub data Key : Type 0 where
  dns_port dns_ip http_port re_url gateway_ip error_html lockfile sta_interface ap_interface : Key

abbrev pub key_text : Key → Bytes
key_text dns_port = codes "DnsPort"
key_text dns_ip = codes "DnsIP"
key_text http_port = codes "HttpPort"
key_text re_url = codes "ReUrl"
key_text gateway_ip = codes "gatewayIP"
key_text error_html = codes "ErrorHtml"
key_text lockfile = codes "lockfile"
key_text sta_interface = codes "staInterface"
key_text ap_interface = codes "apInterface"

abbrev pub keys : List Key
keys =
    dns_port ∷ dns_ip ∷ http_port ∷ re_url ∷ gateway_ip ∷ error_html ∷ lockfile ∷ sta_interface
    ∷ ap_interface ∷ []

-- `strstr(s, pattern) != NULL`.
unfoldable pub contains : Bytes → Bytes → Bool
unfolding starts_with
contains pattern [] = starts_with pattern []
contains pattern (c ∷ s) = starts_with pattern (c ∷ s) || contains pattern s

-- What `sscanf` does for a blank, and the characters that `%s` takes, with the rest.
unfoldable pub skip_spaces : Bytes → Bytes
skip_spaces [] = []
skip_spaces (c ∷ s) = if is_space c then skip_spaces s else c ∷ s

unfoldable pub token : Bytes → Bytes × Bytes
token [] = ([], [])
token (c ∷ s) = let (t, rest) = token s in if is_space c then ([], c ∷ s) else (c ∷ t, rest)

-- The text behind the first token and the blanks.
unfoldable pub argument : Bytes → Bytes
unfolding skip_spaces token
argument line = skip_spaces (token (skip_spaces line)).1

-- `%d`: `none` if there is no number, or one that an `int` does not hold, which C leaves undefined.
unfoldable pub scan_int : Bytes → Option ℕ
scan_int [] = none
scan_int (c ∷ s) =
    if c == b'-'
    then number s (λ n. if leb n (2 ^ 31) then some ((word - n) % word) else none)
    else if c == b'+'
    then number s (λ n. if ltb n (2 ^ 31) then some n else none)
    else number (c ∷ s) (λ n. if ltb n (2 ^ 31) then some n else none)
  where
    number : Bytes → (ℕ → Option ℕ) → Option ℕ
    number [] f = none
    number (d ∷ t) f = if is_digit d then f (digits_from 0 (d ∷ t)) else none

-- `read_int_from_config_line`.
unfoldable pub read_int : Bytes → Option ℕ
read_int line = scan_int (argument line)

-- `read_str_from_config_line`: a `val` without a text for it stays as it is.
unfoldable pub read_str : Bytes → Bytes → Bytes
read_str line val = elim (token (argument line)).0 [ [] ↦ val | c ∷ s ↦ c ∷ s ]

-- What is done for a key.
unfoldable pub assign : Key → Bytes → Config → Config
assign dns_port line c = record c { dns_port = read_int line }
assign dns_ip line c = record c { dns_ip = read_str line c.dns_ip }
assign http_port line c = record c { http_port = read_int line }
assign re_url line c = record c { re_url = read_str line c.re_url }
assign gateway_ip line c = record c { gateway_ip = read_str line c.gateway_ip }
assign error_html line c = record c { error_html = read_str line c.error_html }
assign lockfile line c = record c { lockfile = read_str line c.lockfile }
assign sta_interface line c = record c { sta_interface = read_str line c.sta_interface }
assign ap_interface line c = record c { ap_interface = read_str line c.ap_interface }

-- The `if`s one after another.
unfoldable pub assign_all : List Key → Bytes → Config → Config
assign_all [] line c = c
assign_all (k ∷ ks) line c =
    assign_all ks line (if contains (key_text k ++ b' ' ∷ []) line then assign k line c else c)

-- A line that is a comment or short is skipped.
unfoldable pub is_skipped : Bytes → Bool
is_skipped [] = true
is_skipped (c ∷ s) = c == b'#' || ltb (length (c ∷ s)) 4

abbrev pub buf_size : ℕ
buf_size = 64

-- The body of the loop, for what is in `buf`; `none` is a line that does not fit it, which `fgets` with
-- its limit of 1024 writes all the same. What is read of the line ends at its first zero.
unfoldable pub step : Config → Bytes → Option Config
unfolding c_string
step c line =
    let text : Bytes = c_string line in
    if leb buf_size (length line)
    then none
    else some (if is_skipped text then c else assign_all keys text c)

-- The lines that `fgets` reads, each with its newline.
unfoldable pub lines : Bytes → List Bytes
lines [] = []
lines (c ∷ s) = elim (c == newline) [
  | true ↦ (c ∷ []) ∷ lines s
  | false ↦ elim (lines s) [ [] ↦ (c ∷ []) ∷ [] | l ∷ ls ↦ (c ∷ l) ∷ ls ]
]

abbrev pub ends_in_newline : Bytes → Bool
ends_in_newline [] = false
ends_in_newline (c ∷ []) = c == newline
ends_in_newline (c ∷ d ∷ s) = ends_in_newline (d ∷ s)

-- The loop over the lines. `feof` holds behind a last line without a newline only; behind one that has
-- it `fgets` fails and the body is run for the same `buf` again. `none` for no line at all: `buf` is
-- indeterminate then.
unfoldable pub read_lines : List Bytes → Config → Option Config
read_lines [] c = none
read_lines (l ∷ []) c = elim (step c l) [
  | none ↦ none
  | some c' ↦ if ends_in_newline l then step c' l else some c'
]
read_lines (l ∷ m ∷ ls) c = elim (step c l) [ none ↦ none | some c' ↦ read_lines (m ∷ ls) c' ]

-- `read_config_file`, of a file that could be opened.
unfoldable pub read_config_file : Bytes → Config → Option Config
read_config_file file c = read_lines (lines file) c
