-- ===== src/Config/Entries.antt =====
-- src/application.cpp: a configuration file of ports and texts.
use faster_config.Base.{
  ℕ, ◌^◌, ◌<◌, some, List, [], ◌∷◌, Bytes, false, ◌==◌, length, length-append, All, map, ◌≡◌, refl,
  ap, ◌∙◌, arith,
}
use faster_config.Http.Acl.{is_space}
use faster_config.Iptable.{digits, decimal}
use faster_config.Config.{
  newline, Config, Key, dns_port, dns_ip, http_port, re_url, gateway_ip, error_html, lockfile,
  sta_interface, ap_interface, buf_size, read_config_file,
}
use faster_config.Config.Lines.{IsValue, line_of, set}
use faster_config.Config.Numbers.{scan_int-decimal, digits-head, length-digits, All-digits}
use faster_config.Config.RoundTrip.{file_of, set_all, IsEntry as IsLine, read_config_file-file_of}

-- The members that are texts.
pub data Text : Type 0 where
  the_dns_ip the_re_url the_gateway_ip the_error_html the_lockfile the_sta_interface
        the_ap_interface :
      Text

pub data Entry : Type 0 where
  dns_port_is http_port_is : ℕ → Entry
  text_is : Text → Bytes → Entry

abbrev pub key_of : Text → Key
key_of the_dns_ip = dns_ip
key_of the_re_url = re_url
key_of the_gateway_ip = gateway_ip
key_of the_error_html = error_html
key_of the_lockfile = lockfile
key_of the_sta_interface = sta_interface
key_of the_ap_interface = ap_interface

-- What is written for an entry.
abbrev pub written : Entry → Key × Bytes
written (dns_port_is n) = (dns_port, decimal n)
written (http_port_is n) = (http_port, decimal n)
written (text_is t v) = (key_of t, v)

-- The member that an entry means.
abbrev pub put : Entry → Config → Config
put (dns_port_is n) c = record c { dns_port = some n }
put (http_port_is n) c = record c { http_port = some n }
put (text_is the_dns_ip v) c = record c { dns_ip = v }
put (text_is the_re_url v) c = record c { re_url = v }
put (text_is the_gateway_ip v) c = record c { gateway_ip = v }
put (text_is the_error_html v) c = record c { error_html = v }
put (text_is the_lockfile v) c = record c { lockfile = v }
put (text_is the_sta_interface v) c = record c { sta_interface = v }
put (text_is the_ap_interface v) c = record c { ap_interface = v }

abbrev pub put_all : List Entry → Config → Config
put_all [] c = c
put_all (e ∷ es) c = put_all es (put e c)

abbrev pub IsEntry : Entry → Type 0
IsEntry (dns_port_is n) = n < 2 ^ 31
IsEntry (http_port_is n) = n < 2 ^ 31
IsEntry (text_is t v) = IsValue v × (length (line_of (key_of t) v) < buf_size)

decimal-IsValue : (n : ℕ) → IsValue (decimal n)
unfolding decimal
decimal-IsValue n =
    let (c, s, e, d) = digits-head 9 n in
    let some_digit : 0 < length (digits 10 n) = rw e (omega arith) in
    (
      some_digit,
      All-digits (λ c. is_space c ≡ false) 10 n (λ k h. ground (arith, h)),
      All-digits (λ c. (c == 0) ≡ false) 10 n (λ k h. ground (arith, h)),
    )

written-IsLine : (e : Entry) → IsEntry e → IsLine (written e)
unfolding decimal
written-IsLine (dns_port_is n) h = (
  decimal-IsValue n,
  omega (arith, length-digits 10 n, length-append (digits 10 n) (newline ∷ [])),
)
written-IsLine (http_port_is n) h = (
  decimal-IsValue n,
  omega (arith, length-digits 10 n, length-append (digits 10 n) (newline ∷ [])),
)
written-IsLine (text_is t v) h = h

set-written : (e : Entry) (c : Config) → IsEntry e → set (written e).0 (written e).1 c ≡ put e c
set-written (dns_port_is n) c h = ap (λ p. record c { dns_port = p }) (scan_int-decimal n h)
set-written (http_port_is n) c h = ap (λ p. record c { http_port = p }) (scan_int-decimal n h)
set-written (text_is the_dns_ip v) c h = refl
set-written (text_is the_re_url v) c h = refl
set-written (text_is the_gateway_ip v) c h = refl
set-written (text_is the_error_html v) c h = refl
set-written (text_is the_lockfile v) c h = refl
set-written (text_is the_sta_interface v) c h = refl
set-written (text_is the_ap_interface v) c h = refl

all_written : (es : List Entry) → All IsEntry es → All IsLine (map written es)
all_written [] h = tt
all_written (e ∷ es) (h, hs) = (written-IsLine e h, all_written es hs)

set_all-put_all :
    (es : List Entry) (c : Config) → All IsEntry es → set_all (map written es) c ≡ put_all es c
set_all-put_all [] c h = refl
set_all-put_all (e ∷ es) c (h, hs) =
    ap (set_all (map written es)) (set-written e c h) ∙ set_all-put_all es (put e c) hs

-- Reading a file that gives ports and texts to members sets the members to them, in the order of the
-- lines, and leaves the others as they are, although the last line is taken twice. There is a line, a
-- port is a number of 31 bits in decimal digits, and a text is not empty, has no white space and no
-- zero, and makes a line that is shorter than `buf`.
pub read_config_file-entries :
    (e : Entry) (es : List Entry) (c : Config)
    → All IsEntry (e ∷ es)
    → read_config_file (file_of (map written (e ∷ es))) c ≡ some (put_all (e ∷ es) c)
read_config_file-entries e es c h =
    read_config_file-file_of (written e) (map written es) c (all_written (e ∷ es) h)
    ∙ ap some (set_all-put_all (e ∷ es) c h)
