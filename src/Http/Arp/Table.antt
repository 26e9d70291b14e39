-- ===== src/Http/Arp/Table.antt =====
-- src/httpd.cpp: `arp_get` on the table as the kernel prints it.
use faster_config.Base.{
  ℕ, zero, suc, ◌≤◌, ◌<◌, Option, none, some, List, [], ◌∷◌, ◌++◌, Bytes, true, false, not, ◌==◌,
  Bool-cases, inl, inr, if◌then◌else◌, length, length-append, str_eq, All, ◌≡◌, ◌≢◌, refl, ◌∙◌,
  arith,
}
use faster_config.Http.Request.{span}
use faster_config.Http.Request.Text.{all}
use faster_config.Http.Arp.Words.{
  blanks, IsWord, skip_space-blanks, scan_set-blanks, skip_word-blanks, skip_space-set, is_ip-word,
  is_mac-word, skip_tail-words,
}
use faster_config.Http.Arp.{
  is_ip, is_mac, skip_space, span_most, scan_set, scan_row, scan_rows, skip_line, arp_get,
}

-- A row of the table, and the blanks behind each of its columns beside the one that is always there.
pub record Row : Type 0 where
  pub ip : Bytes
  pub hw_type : Bytes
  pub flags : Bytes
  pub mac : Bytes
  pub mask : Bytes
  pub device : Bytes
  pub ip_padding : ℕ
  pub hw_padding : ℕ
  pub flags_padding : ℕ
  pub mac_padding : ℕ
  pub mask_padding : ℕ

abbrev pub row_text : Row → Bytes → Bytes
row_text r t =
    r.ip
    ++ blanks r.ip_padding (
        r.hw_type
        ++ blanks r.hw_padding (
            r.flags
            ++ blanks r.flags_padding (
                r.mac
                ++ blanks r.mac_padding (r.mask ++ blanks r.mask_padding (r.device ++ b'\n' ∷ t)))))

-- The rows behind the first line.
abbrev pub rows_text : List Row → Bytes
rows_text [] = []
rows_text (r ∷ rows) = row_text r (rows_text rows)

pub record IsRow (r : Row) : Type 0 where
  pub ip_text : (r.ip ≢ []) × (all is_ip r.ip ≡ true) × (length r.ip ≤ 15)
  pub mac_text : (r.mac ≢ []) × (all is_mac r.mac ≡ true) × (length r.mac ≤ 17)
  pub hw_word : IsWord r.hw_type
  pub flags_word : IsWord r.flags
  pub mask_word : IsWord r.mask
  pub device_word : IsWord r.device

-- The first row of an address.
abbrev pub mac_of : Bytes → List Row → Option Bytes
mac_of req_ip [] = none
mac_of req_ip (r ∷ rows) = if str_eq r.ip req_ip then some r.mac else mac_of req_ip rows

-- A row is read whole, whatever white space stands before it.
scan_row-row_text :
    (proc t : Bytes) (r : Row)
    → IsRow r
    → skip_space proc ≡ skip_space (row_text r t)
    → scan_row proc ≡ some (r.ip, r.mac, b'\n' ∷ t)
unfolding scan_row
scan_row-row_text proc t r h e =
    let n1 = r.ip_padding in
    let n2 = r.hw_padding in
    let n3 = r.flags_padding in
    let n4 = r.mac_padding in
    let (ip_ne, ip_set, ip_short) = h.ip_text in
    let (mac_ne, mac_set, mac_short) = h.mac_text in
    let tail : Bytes = r.mask ++ blanks r.mask_padding (r.device ++ b'\n' ∷ t) in
    let x5 : Bytes = blanks n4 tail in
    let x4 : Bytes = blanks n3 (r.mac ++ x5) in
    let x2 : Bytes = r.hw_type ++ blanks n2 (r.flags ++ x4) in
    let start : skip_space proc ≡ r.ip ++ blanks n1 x2 =
      e ∙ skip_space-set is_ip r.ip (blanks n1 x2) ip_ne ip_set is_ip-word in
    let mac_start : skip_space x4 ≡ r.mac ++ x5 =
      skip_space-blanks n3 (r.mac ++ x5)
      ∙ skip_space-set is_mac r.mac x5 mac_ne mac_set is_mac-word in
    rw (scan_row, start)
      (rw (scan_set-blanks 15 is_ip r.ip n1 x2 ip_ne ip_set ip_short refl) (
        rw (skip_word-blanks n1 n2 r.hw_type (r.flags ++ x4) h.hw_word) (
          rw (skip_word-blanks n2 n3 r.flags (r.mac ++ x5) h.flags_word) (
            rw mac_start (
              rw (scan_set-blanks 17 is_mac r.mac n4 tail mac_ne mac_set mac_short refl) (
                rw (skip_tail-words n4 r.mask_padding r.mask r.device t h.mask_word h.device_word)
                  refl))))))

-- At the end of the file there is no row.
scan_row-end : (proc : Bytes) → skip_space proc ≡ [] → scan_row proc ≡ none
unfolding scan_row scan_set span_most
scan_row-end proc e = rw (scan_row, e) refl

skip_space-newline : (t : Bytes) → skip_space (b'\n' ∷ t) ≡ skip_space t
unfolding span skip_space
skip_space-newline t = refl

skip_space-nil : skip_space [] ≡ []
unfolding span skip_space
skip_space-nil = refl

scan_rows-rows_text :
    (fuel : ℕ) (rows : List Row) (proc req_ip : Bytes)
    → All IsRow rows
    → length rows < fuel
    → skip_space proc ≡ skip_space (rows_text rows)
    → scan_rows fuel proc req_ip ≡ some (mac_of req_ip rows)
unfolding scan_rows
scan_rows-rows_text zero rows proc req_ip h enough e = absurd (omega (arith, enough))
scan_rows-rows_text (suc fuel) [] proc req_ip h enough e =
    rw (scan_rows, scan_row-end proc (e ∙ skip_space-nil)) refl
scan_rows-rows_text (suc fuel) (r ∷ rows) proc req_ip (hr, hs) enough e =
    let row = scan_row-row_text proc (rows_text rows) r hr e in
    let later =
      scan_rows-rows_text fuel rows (b'\n' ∷ rows_text rows) req_ip hs (omega (arith, enough))
        (skip_space-newline (rows_text rows)) in
    elim (Bool-cases (str_eq r.ip req_ip)) [
      | inl same ↦ rw (scan_rows, row) (rw same refl)
      | inr other ↦ rw (scan_rows, row) (rw other later)
    ]

lt-blanks : (n : ℕ) (t : Bytes) → length t < length (blanks n t)
lt-blanks zero t = omega arith
lt-blanks (suc n) t = let k = lt-blanks n t in omega (arith, k)

le-append : (s t : Bytes) → length t ≤ length (s ++ t)
le-append s t = let k = length-append s t in omega (arith, k)

lt-column : (n : ℕ) (s t : Bytes) → length t < length (s ++ blanks n t)
lt-column n s t = let a = lt-blanks n t in let b = le-append s (blanks n t) in omega (arith, a, b)

lt-row_text : (r : Row) (t : Bytes) → length t < length (row_text r t)
lt-row_text r t =
    let x5 : Bytes = r.device ++ b'\n' ∷ t in
    let x4 : Bytes = r.mask ++ blanks r.mask_padding x5 in
    let x3 : Bytes = r.mac ++ blanks r.mac_padding x4 in
    let x2 : Bytes = r.flags ++ blanks r.flags_padding x3 in
    let x1 : Bytes = r.hw_type ++ blanks r.hw_padding x2 in
    let a = le-append r.device (b'\n' ∷ t) in
    let b = lt-column r.mask_padding r.mask x5 in
    let c = lt-column r.mac_padding r.mac x4 in
    let d = lt-column r.flags_padding r.flags x3 in
    let e = lt-column r.hw_padding r.hw_type x2 in
    let f = lt-column r.ip_padding r.ip x1 in omega (arith, a, b, c, d, e, f)

length-rows_text : (rows : List Row) → length rows ≤ length (rows_text rows)
length-rows_text [] = omega arith
length-rows_text (r ∷ rows) =
    let k = length-rows_text rows in
    let more = lt-row_text r (rows_text rows) in omega (arith, k, more)

skip_line-append :
    (header t : Bytes)
    → all (λ c. not (c == b'\n')) header ≡ true
    → skip_line (header ++ b'\n' ∷ t) ≡ t
unfolding skip_line all
skip_line-append [] t h = refl
skip_line-append (c ∷ header) t h =
    let here : (c == b'\n') ≡ false = ground (arith, h) in
    let later = skip_line-append header t (ground (arith, h)) in rw here later

-- `arp_get` finds the hardware address of the first row for the client's address, and nothing for
-- a client that no row has, whatever the first line and the blanks between the columns, one at
-- least: each row has an address of digits and points with at most 15 characters, a hardware
-- address of hexadecimal digits and colons with at most 17, and four words without white space.
pub arp_get-rows_text :
    (header : Bytes) (rows : List Row) (req_ip : Bytes)
    → all (λ c. not (c == b'\n')) header ≡ true
    → All IsRow rows
    → arp_get (some (header ++ b'\n' ∷ rows_text rows)) req_ip ≡ mac_of req_ip rows
unfolding arp_get
arp_get-rows_text header rows req_ip line h =
    let text : Bytes = rows_text rows in
    let file : Bytes = header ++ b'\n' ∷ text in
    let a = length-rows_text rows in
    let b = le-append header (b'\n' ∷ text) in
    let enough : length rows < suc (length file) = omega (arith, a, b) in
    rw (arp_get, skip_line-append header text line)
      (rw (scan_rows-rows_text (suc (length file)) rows text req_ip h enough refl) refl)
