-- ===== src/Config/Bounds.antt =====
-- src/application.h and src/application.cpp: the arrays of the members, and what is read into them.
use faster_config.Base.{
  ◌==◌, ◌≤◌, ◌<◌, Option, none, some, List, [], ◌∷◌, ◌++◌, Bytes, Bool, true, false, Bool-cases,
  inl, inr, leb, if◌then◌else◌, length, All, ◌≡◌, subst, arith,
}
use faster_config.Http.Query.{c_string}
use faster_config.Http.Acl.{is_space}
use faster_config.Config.{
  Config, Key, dns_port, dns_ip, http_port, re_url, gateway_ip, error_html, lockfile, sta_interface,
  ap_interface, key_text, keys, contains, skip_spaces, token, argument, read_str, assign,
  assign_all, is_skipped, buf_size, step, lines, ends_in_newline, read_lines, read_config_file,
}

-- The texts of the members, and that each has room with its terminator in its array of 64.
abbrev pub texts : Config → List Bytes
texts c =
    c.dns_ip ∷ c.re_url ∷ c.gateway_ip ∷ c.error_html ∷ c.lockfile ∷ c.sta_interface
    ∷ c.ap_interface ∷ []

abbrev pub IsFitted : Config → Type 0
IsFitted c = All (λ text. length text < 64) (texts c)

length-skip_spaces : (s : Bytes) → length (skip_spaces s) ≤ length s
unfolding skip_spaces
length-skip_spaces [] = omega arith
length-skip_spaces (c ∷ s) =
    let k = length-skip_spaces s in
    elim (Bool-cases (is_space c)) [
      | inl blank ↦ rw (skip_spaces, blank) (omega (arith, k))
      | inr other ↦ rw (skip_spaces, other) (omega arith)
    ]

length-token : (s : Bytes) → (length (token s).0 ≤ length s) × (length (token s).1 ≤ length s)
unfolding token
length-token [] = (omega arith, omega arith)
length-token (c ∷ s) =
    let (a, b) = length-token s in
    elim (Bool-cases (is_space c)) [
      | inl blank ↦ rw (token, blank) (omega arith, omega arith)
      | inr other ↦ rw (token, other) (omega (arith, a), omega (arith, b))
    ]

length-argument : (line : Bytes) → length (argument line) ≤ length line
unfolding argument
length-argument line =
    let a = length-skip_spaces line in
    let b = (length-token (skip_spaces line)).1 in
    let c = length-skip_spaces (token (skip_spaces line)).1 in omega (arith, a, b, c)

or_kept :
    (t val : Bytes)
    → length t < 64
    → length val < 64
    → length (elim t [ [] ↦ val | c ∷ s ↦ c ∷ s ]) < 64
or_kept [] val ht hv = hv
or_kept (c ∷ t) val ht hv = ht

read_str-short :
    (line val : Bytes) → length line < buf_size → length val < 64 → length (read_str line val) < 64
unfolding read_str
read_str-short line val hl hv =
    let a = length-argument line in
    let b = (length-token (argument line)).0 in
    or_kept (token (argument line)).0 val (omega (arith, a, b, hl)) hv

assign-IsFitted :
    (k : Key) (line : Bytes) (c : Config)
    → length line < buf_size
    → IsFitted c
    → IsFitted (assign k line c)
unfolding assign
assign-IsFitted dns_port line c len h = h
assign-IsFitted http_port line c len h = h
assign-IsFitted dns_ip line c len (h, hs) = (read_str-short line c.dns_ip len h, hs)
assign-IsFitted re_url line c len (a, (h, hs)) = (a, (read_str-short line c.re_url len h, hs))
assign-IsFitted gateway_ip line c len (a, (b, (h, hs))) =
    (a, (b, (read_str-short line c.gateway_ip len h, hs)))
assign-IsFitted error_html line c len (a, (b, (d, (h, hs)))) =
    (a, (b, (d, (read_str-short line c.error_html len h, hs))))
assign-IsFitted lockfile line c len (a, (b, (d, (e, (h, hs))))) =
    (a, (b, (d, (e, (read_str-short line c.lockfile len h, hs)))))
assign-IsFitted sta_interface line c len (a, (b, (d, (e, (f, (h, hs)))))) =
    (a, (b, (d, (e, (f, (read_str-short line c.sta_interface len h, hs))))))
assign-IsFitted ap_interface line c len (a, (b, (d, (e, (f, (g, (h, hs))))))) =
    (a, (b, (d, (e, (f, (g, (read_str-short line c.ap_interface len h, hs)))))))

assign_all-IsFitted :
    (ks : List Key) (line : Bytes) (c : Config)
    → length line < buf_size
    → IsFitted c
    → IsFitted (assign_all ks line c)
unfolding assign_all
assign_all-IsFitted [] line c len h = h
assign_all-IsFitted (k ∷ ks) line c len h =
    elim (Bool-cases (contains (key_text k ++ b' ' ∷ []) line)) [
      | inl found ↦
          rw (assign_all, found)
            (assign_all-IsFitted ks line (assign k line c) len (assign-IsFitted k line c len h))
      | inr other ↦ rw (assign_all, other) (assign_all-IsFitted ks line c len h)
    ]

-- What a fallible step gives, if anything, is fitted.
abbrev result : Option Config → List Config
result none = []
result (some c) = c ∷ []

abbrev AreFitted : Option Config → Type 0
AreFitted r = All IsFitted (result r)

choice-IsFitted :
    (b : Bool) (c d : Config) → IsFitted c → IsFitted d → IsFitted (if b then c else d)
choice-IsFitted true c d hc hd = hc
choice-IsFitted false c d hc hd = hd

length-c_string : (s : Bytes) → length (c_string s) ≤ length s
unfolding c_string
length-c_string [] = omega arith
length-c_string (c ∷ s) =
    let k = length-c_string s in
    elim (Bool-cases (c == 0)) [
      | inl end ↦ rw (c_string, end) (omega arith)
      | inr other ↦ rw (c_string, other) (omega (arith, k))
    ]

step-AreFitted : (c : Config) (line : Bytes) → IsFitted c → AreFitted (step c line)
unfolding step
step-AreFitted c line h = elim (Bool-cases (leb buf_size (length line))) [
  | inl long ↦ rw (step, long) tt
  | inr short ↦
      let fits : length (c_string line) < buf_size =
        let k = length-c_string line in ground (arith, short, k) in
      let c' : Config = assign_all keys (c_string line) c in
      let assigned = assign_all-IsFitted keys (c_string line) c fits h in
      rw (step, short) (choice-IsFitted (is_skipped (c_string line)) c c' h assigned, tt)
]

then-AreFitted :
    (r : Option Config) (next : Config → Option Config)
    → AreFitted r
    → ((c : Config) → IsFitted c → AreFitted (next c))
    → AreFitted (elim r [ none ↦ none | some c ↦ next c ])
then-AreFitted none next hr h = tt
then-AreFitted (some c) next (hr, _) h = h c hr

again-AreFitted :
    (b : Bool) (l : Bytes) (c : Config) → IsFitted c → AreFitted (if b then step c l else some c)
again-AreFitted true l c h = step-AreFitted c l h
again-AreFitted false l c h = (h, tt)

read_lines-AreFitted : (ls : List Bytes) (c : Config) → IsFitted c → AreFitted (read_lines ls c)
unfolding read_lines
read_lines-AreFitted [] c h = tt
read_lines-AreFitted (l ∷ []) c h =
    then-AreFitted (step c l) (λ c'. if ends_in_newline l then step c' l else some c')
      (step-AreFitted c l h) (λ c' h'. again-AreFitted (ends_in_newline l) l c' h')
read_lines-AreFitted (l ∷ m ∷ ls) c h =
    then-AreFitted (step c l) (λ c'. read_lines (m ∷ ls) c') (step-AreFitted c l h)
      (λ c' h'. read_lines-AreFitted (m ∷ ls) c' h')

-- If the text of every member lies with its terminator in its array of 64 characters, it still does
-- after a configuration has been read, whatever bytes the file holds, if reading it succeeds: if no
-- line is written past `buf`. A member without a line keeps the text that it has.
pub read_config_file-IsFitted :
    (file : Bytes) (c c' : Config) → IsFitted c → read_config_file file c ≡ some c' → IsFitted c'
unfolding read_config_file
read_config_file-IsFitted file c c' h e =
    (subst AreFitted e (read_lines-AreFitted (lines file) c h)).0
