-- ===== src/Config/Lines.antt =====
-- src/application.cpp: what one line of the configuration does.
use faster_config.Base.{
  ℕ, ◌<◌, none, some, List, [], ◌∷◌, ◌++◌, append_assoc, Bytes, ◌==◌, leb, Bool, false, ◌||◌,
  if◌then◌else◌, length, All, All-append, ◌≡◌, ◌≢◌, refl, sym, ap, ◌∙◌, arith,
}
use faster_config.Http.Url.{starts_with}
use faster_config.Http.Query.{c_string}
use faster_config.Http.Acl.{is_space}
use faster_config.Config.{
  newline, Config, Key, dns_port, dns_ip, http_port, re_url, gateway_ip, error_html, lockfile,
  sta_interface, ap_interface, key_text, keys, contains, skip_spaces, token, argument, scan_int,
  read_int, read_str, assign, assign_all, is_skipped, buf_size, step,
}

abbrev blank : ℕ
blank = b' '

-- The text behind the key has no blank, so no key with its blank is found there.
starts_with-no_blank :
    (k s : Bytes) → All (λ c. c ≢ blank) s → starts_with (k ++ blank ∷ []) s ≡ false
unfolding starts_with
starts_with-no_blank [] [] h = refl
starts_with-no_blank [] (c ∷ s) (hc, hs) = ground arith
starts_with-no_blank (p ∷ k) [] h = refl
starts_with-no_blank (p ∷ k) (c ∷ s) (hc, hs) = rw (starts_with-no_blank k s hs) (ground arith)

starts_with-append :
    (k xs s : Bytes)
    → All (λ c. c ≢ blank) s
    → starts_with (k ++ blank ∷ []) (xs ++ s) ≡ starts_with (k ++ blank ∷ []) xs
unfolding starts_with
starts_with-append [] [] s h = starts_with-no_blank [] s h
starts_with-append [] (x ∷ xs) s h = refl
starts_with-append (p ∷ k) [] s h = starts_with-no_blank (p ∷ k) s h
starts_with-append (p ∷ k) (x ∷ xs) s h = rw (starts_with-append k xs s h)

contains-no_blank : (k s : Bytes) → All (λ c. c ≢ blank) s → contains (k ++ blank ∷ []) s ≡ false
unfolding contains
contains-no_blank k [] h = starts_with-no_blank k [] h
contains-no_blank k (c ∷ s) h = rw (starts_with-no_blank k (c ∷ s) h, contains-no_blank k s h.1)

contains-append :
    (k xs s : Bytes)
    → All (λ c. c ≢ blank) s
    → contains (k ++ blank ∷ []) (xs ++ s) ≡ contains (k ++ blank ∷ []) xs
unfolding contains
contains-append k [] s h = contains-no_blank k s h ∙ sym (starts_with-no_blank k [] tt)
contains-append k (x ∷ xs) s h = rw (starts_with-append k (x ∷ xs) s h, contains-append k xs s h)

-- The keys that a key with its blank shows.
abbrev assign_shown : Bytes → List Key → Bytes → Config → Config
assign_shown shown [] line c = c
assign_shown shown (k ∷ ks) line c =
    assign_shown shown ks line
      (if contains (key_text k ++ blank ∷ []) shown then assign k line c else c)

assign_all-shown :
    (shown s : Bytes) (ks : List Key) (c : Config)
    → All (λ c. c ≢ blank) s
    → assign_all ks (shown ++ s) c ≡ assign_shown shown ks (shown ++ s) c
unfolding assign_all
assign_all-shown shown s [] c h = refl
assign_all-shown shown s (k ∷ ks) c h =
    let same = contains-append (key_text k) shown s h in
    rw same (
      assign_all-shown shown s ks
        (if contains (key_text k ++ blank ∷ []) shown then assign k (shown ++ s) c else c) h)

-- A key is found in its own line only.
assign_shown-key :
    (k : Key) (line : Bytes) (c : Config)
    → assign_shown (key_text k ++ blank ∷ []) keys line c ≡ assign k line c
unfolding contains
assign_shown-key dns_port line c = refl
assign_shown-key dns_ip line c = refl
assign_shown-key http_port line c = refl
assign_shown-key re_url line c = refl
assign_shown-key gateway_ip line c = refl
assign_shown-key error_html line c = refl
assign_shown-key lockfile line c = refl
assign_shown-key sta_interface line c = refl
assign_shown-key ap_interface line c = refl

-- A value that `sscanf` takes whole: characters, and no white space.
abbrev pub IsValue : Bytes → Type 0
IsValue v = (0 < length v) × All (λ c. is_space c ≡ false) v × All (λ c. (c == 0) ≡ false) v

-- The line that gives a value to a key.
abbrev pub line_of : Key → Bytes → Bytes
line_of k v = key_text k ++ blank ∷ [] ++ (v ++ newline ∷ [])

space_ne : (c : ℕ) → is_space c ≡ false → c ≢ blank
space_ne c h e = ground arith

no_blanks : (v : Bytes) → All (λ c. is_space c ≡ false) v → All (λ c. c ≢ blank) (v ++ newline ∷ [])
no_blanks [] h = (λ e. omega (arith, e), tt)
no_blanks (c ∷ v) (hc, hv) = (λ e. space_ne c hc e, no_blanks v hv)

token-value :
    (v : Bytes) → All (λ c. is_space c ≡ false) v → token (v ++ newline ∷ []) ≡ (v, newline ∷ [])
unfolding token
token-value [] h = refl
token-value (c ∷ v) (hc, hv) = rw (token-value v hv, hc)

skip_spaces-value :
    (v : Bytes) → IsValue v → skip_spaces (blank ∷ v ++ newline ∷ []) ≡ v ++ newline ∷ []
unfolding skip_spaces
skip_spaces-value [] h = absurd (omega arith)
skip_spaces-value (c ∷ v) (n, (hc, hv), hz) = rw hc

argument-line_of : (k : Key) (v : Bytes) → IsValue v → argument (line_of k v) ≡ v ++ newline ∷ []
unfolding argument token skip_spaces
argument-line_of dns_port v h = skip_spaces-value v h
argument-line_of dns_ip v h = skip_spaces-value v h
argument-line_of http_port v h = skip_spaces-value v h
argument-line_of re_url v h = skip_spaces-value v h
argument-line_of gateway_ip v h = skip_spaces-value v h
argument-line_of error_html v h = skip_spaces-value v h
argument-line_of lockfile v h = skip_spaces-value v h
argument-line_of sta_interface v h = skip_spaces-value v h
argument-line_of ap_interface v h = skip_spaces-value v h

-- What a key and its value make of a configuration.
abbrev pub set : Key → Bytes → Config → Config
set dns_port v c = record c { dns_port = scan_int (v ++ newline ∷ []) }
set dns_ip v c = record c { dns_ip = v }
set http_port v c = record c { http_port = scan_int (v ++ newline ∷ []) }
set re_url v c = record c { re_url = v }
set gateway_ip v c = record c { gateway_ip = v }
set error_html v c = record c { error_html = v }
set lockfile v c = record c { lockfile = v }
set sta_interface v c = record c { sta_interface = v }
set ap_interface v c = record c { ap_interface = v }

read_str-line_of : (k : Key) (v val : Bytes) → IsValue v → read_str (line_of k v) val ≡ v
unfolding read_str
read_str-line_of k [] val h = absurd (omega arith)
read_str-line_of k (c ∷ v) val h =
    rw (argument-line_of k (c ∷ v) h, token-value (c ∷ v) h.1, read_str)

assign-line_of :
    (k : Key) (v : Bytes) (c : Config) → IsValue v → assign k (line_of k v) c ≡ set k v c
unfolding assign read_int
assign-line_of dns_port v c h = rw (argument-line_of dns_port v h)
assign-line_of dns_ip v c h = rw (read_str-line_of dns_ip v c.dns_ip h)
assign-line_of http_port v c h = rw (argument-line_of http_port v h)
assign-line_of re_url v c h = rw (read_str-line_of re_url v c.re_url h)
assign-line_of gateway_ip v c h = rw (read_str-line_of gateway_ip v c.gateway_ip h)
assign-line_of error_html v c h = rw (read_str-line_of error_html v c.error_html h)
assign-line_of lockfile v c h = rw (read_str-line_of lockfile v c.lockfile h)
assign-line_of sta_interface v c h = rw (read_str-line_of sta_interface v c.sta_interface h)
assign-line_of ap_interface v c h = rw (read_str-line_of ap_interface v c.ap_interface h)

is_skipped-line_of : (k : Key) (v : Bytes) → is_skipped (line_of k v) ≡ false
unfolding is_skipped
is_skipped-line_of dns_port v = ground arith
is_skipped-line_of dns_ip v = ground arith
is_skipped-line_of http_port v = ground arith
is_skipped-line_of re_url v = ground arith
is_skipped-line_of gateway_ip v = ground arith
is_skipped-line_of error_html v = ground arith
is_skipped-line_of lockfile v = ground arith
is_skipped-line_of sta_interface v = ground arith
is_skipped-line_of ap_interface v = ground arith

-- No zero in a line cuts it.
c_string-line : (s : Bytes) → All (λ c. (c == 0) ≡ false) s → c_string s ≡ s
unfolding c_string
c_string-line [] h = refl
c_string-line (c ∷ s) (hc, hs) = rw (hc, c_string) (ap (λ t. c ∷ t) (c_string-line s hs))

c_string-line_of :
    (k : Key) (v : Bytes) → All (λ c. (c == 0) ≡ false) v → c_string (line_of k v) ≡ line_of k v
c_string-line_of k v h = c_string-line (line_of k v) (
    All-append _ (key_text k ++ blank ∷ []) (v ++ newline ∷ []) (key k)
      (All-append _ v (newline ∷ []) h (refl, tt)))
  where
    zero_in : Bytes → Bool
    zero_in [] = false
    zero_in (c ∷ s) = c == 0 || zero_in s

    plain : (s : Bytes) → zero_in s ≡ false → All (λ c. (c == 0) ≡ false) s
    plain [] h = tt
    plain (c ∷ s) h = (ground arith, plain s (ground arith))

    key : (k : Key) → All (λ c. (c == 0) ≡ false) (key_text k ++ blank ∷ [])
    key dns_port = plain (key_text dns_port ++ blank ∷ []) refl
    key dns_ip = plain (key_text dns_ip ++ blank ∷ []) refl
    key http_port = plain (key_text http_port ++ blank ∷ []) refl
    key re_url = plain (key_text re_url ++ blank ∷ []) refl
    key gateway_ip = plain (key_text gateway_ip ++ blank ∷ []) refl
    key error_html = plain (key_text error_html ++ blank ∷ []) refl
    key lockfile = plain (key_text lockfile ++ blank ∷ []) refl
    key sta_interface = plain (key_text sta_interface ++ blank ∷ []) refl
    key ap_interface = plain (key_text ap_interface ++ blank ∷ []) refl

-- A line with a key and its value sets the member of this key to the value, and no other, if it is
-- shorter than `buf`; if it is not, it is written past its end. The value is not empty and has no
-- white space and no zero.
pub step-line_of :
    (k : Key) (v : Bytes) (c : Config)
    → IsValue v
    → step c (line_of k v)
      ≡ (if leb buf_size (length (line_of k v)) then none else some (set k v c))
unfolding step
step-line_of k v c h =
    let skipped = is_skipped-line_of k v in
    let done : assign_all keys (line_of k v) c ≡ set k v c =
      assign_all-shown (key_text k ++ blank ∷ []) (v ++ newline ∷ []) keys c (no_blanks v h.1)
      ∙ assign_shown-key k (line_of k v) c
      ∙ assign-line_of k v c h in
    let whole = c_string-line_of k v h.2 in rw (step, whole) (rw (skipped, done))

-- A line has its newline at the end only.
pub not_newline :
    (k : Key) (v : Bytes)
    → All (λ c. is_space c ≡ false) v
    → All (λ c. (c == newline) ≡ false) (key_text k ++ blank ∷ [] ++ v)
not_newline k v h = All-append _ (key_text k ++ blank ∷ []) v (key k) (value v h)
  where
    value : (v : Bytes) → All (λ c. is_space c ≡ false) v → All (λ c. (c == newline) ≡ false) v
    value [] h = tt
    value (c ∷ v) (hc, hv) = (ground arith, value v hv)

    newline_in : Bytes → Bool
    newline_in [] = false
    newline_in (c ∷ s) = c == newline || newline_in s

    plain : (s : Bytes) → newline_in s ≡ false → All (λ c. (c == newline) ≡ false) s
    plain [] h = tt
    plain (c ∷ s) h = (ground arith, plain s (ground arith))

    key : (k : Key) → All (λ c. (c == newline) ≡ false) (key_text k ++ blank ∷ [])
    key dns_port = plain (key_text dns_port ++ blank ∷ []) refl
    key dns_ip = plain (key_text dns_ip ++ blank ∷ []) refl
    key http_port = plain (key_text http_port ++ blank ∷ []) refl
    key re_url = plain (key_text re_url ++ blank ∷ []) refl
    key gateway_ip = plain (key_text gateway_ip ++ blank ∷ []) refl
    key error_html = plain (key_text error_html ++ blank ∷ []) refl
    key lockfile = plain (key_text lockfile ++ blank ∷ []) refl
    key sta_interface = plain (key_text sta_interface ++ blank ∷ []) refl
    key ap_interface = plain (key_text ap_interface ++ blank ∷ []) refl

pub line_of-newline :
    (k : Key) (v : Bytes) → line_of k v ≡ key_text k ++ blank ∷ [] ++ v ++ newline ∷ []
line_of-newline k v = sym (append_assoc (key_text k ++ blank ∷ []) v (newline ∷ []))
