-- ===== src/Config/RoundTrip.antt =====
-- src/application.cpp: reading a whole configuration file.
use faster_config.Base.{
  ◌<◌, some, List, [], ◌∷◌, ◌++◌, Bytes, ◌==◌, leb, true, false, length, All, ◌≡◌, refl, ap, ◌∙◌,
  arith,
}
use faster_config.Config.{
  newline, Config, Key, dns_port, dns_ip, http_port, re_url, gateway_ip, error_html, lockfile,
  sta_interface, ap_interface, key_text, buf_size, step, lines, ends_in_newline, read_lines,
  read_config_file,
}
use faster_config.Config.Lines.{IsValue, line_of, set, step-line_of, not_newline, line_of-newline}

-- The lines of a file that gives values to keys, and the members that they set, in order.
abbrev pub file_of : List (Key × Bytes) → Bytes
file_of [] = []
file_of ((k, v) ∷ kvs) = line_of k v ++ file_of kvs

abbrev pub set_all : List (Key × Bytes) → Config → Config
set_all [] c = c
set_all ((k, v) ∷ kvs) c = set_all kvs (set k v c)

abbrev pub IsEntry : Key × Bytes → Type 0
IsEntry (k, v) = IsValue v × (length (line_of k v) < buf_size)

abbrev lines_of : List (Key × Bytes) → List Bytes
lines_of [] = []
lines_of ((k, v) ∷ kvs) = line_of k v ∷ lines_of kvs

lines-append :
    (l s : Bytes)
    → All (λ c. (c == newline) ≡ false) l
    → lines (l ++ newline ∷ [] ++ s) ≡ (l ++ newline ∷ []) ∷ lines s
unfolding lines
lines-append [] s h = refl
lines-append (c ∷ l) s (hc, hl) = rw (hc, lines) (rw (lines-append l s hl))

lines-file_of : (kvs : List (Key × Bytes)) → All IsEntry kvs → lines (file_of kvs) ≡ lines_of kvs
unfolding lines
lines-file_of [] h = refl
lines-file_of ((k, v) ∷ kvs) (hv, h) =
    let rest = lines-file_of kvs h in
    let e = line_of-newline k v in
    let whole = key_text k ++ b' ' ∷ [] ++ v in
    rw e (
      lines-append whole (file_of kvs) (not_newline k v hv.0.1)
      ∙ ap (λ ls. (whole ++ newline ∷ []) ∷ ls) rest)

set_twice : (k : Key) (v : Bytes) (c : Config) → set k v (set k v c) ≡ set k v c
set_twice dns_port v c = refl
set_twice dns_ip v c = refl
set_twice http_port v c = refl
set_twice re_url v c = refl
set_twice gateway_ip v c = refl
set_twice error_html v c = refl
set_twice lockfile v c = refl
set_twice sta_interface v c = refl
set_twice ap_interface v c = refl

ends-append : (l : Bytes) → ends_in_newline (l ++ newline ∷ []) ≡ true
ends-append [] = refl
ends-append (c ∷ []) = refl
ends-append (c ∷ d ∷ l) = ends-append (d ∷ l)

step-entry :
    (k : Key) (v : Bytes) (c : Config) → IsEntry (k, v) → step c (line_of k v) ≡ some (set k v c)
step-entry k v c h =
    let fits : leb buf_size (length (line_of k v)) ≡ false = ground (arith, h.1) in
    step-line_of k v c h.0 ∙ rw fits

read_lines-lines_of :
    (e : Key × Bytes) (kvs : List (Key × Bytes)) (c : Config)
    → All IsEntry (e ∷ kvs)
    → read_lines (lines_of (e ∷ kvs)) c ≡ some (set_all (e ∷ kvs) c)
unfolding read_lines
read_lines-lines_of (k, v) [] c (h, hs) =
    let ends : ends_in_newline (line_of k v) ≡ true =
      let e = line_of-newline k v in rw e (ends-append (key_text k ++ b' ' ∷ [] ++ v)) in
    rw (step-entry k v c h, read_lines)
      (rw (ends, step-entry k v (set k v c) h) (ap some (set_twice k v c)))
read_lines-lines_of (k, v) (e ∷ kvs) c (h, hs) =
    rw (step-entry k v c h, read_lines) (read_lines-lines_of e kvs (set k v c) hs)

-- Reading a file of lines that give values to keys sets the members to these values, in the order
-- of the lines, and leaves the others as they are, although the last line is taken twice. There is
-- a line, each is shorter than `buf`, and no value is empty or has white space.
pub read_config_file-file_of :
    (e : Key × Bytes) (kvs : List (Key × Bytes)) (c : Config)
    → All IsEntry (e ∷ kvs)
    → read_config_file (file_of (e ∷ kvs)) c ≡ some (set_all (e ∷ kvs) c)
unfolding read_config_file
read_config_file-file_of e kvs c h =
    ap (λ ls. read_lines ls c) (lines-file_of (e ∷ kvs) h) ∙ read_lines-lines_of e kvs c h
