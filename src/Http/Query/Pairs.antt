-- ===== src/Http/Query/Pairs.antt =====
-- src/httpd.cpp: the variables of a query of names and escaped values.
use faster_config.Base.{
  ℕ, suc, ◌+◌, ◌<◌, none, some, List, [], ◌∷◌, ◌++◌, map, append-nil, append_assoc, Bytes, IsByte,
  ◌==◌, ◌&&◌, ◌||◌, not, Bool, true, false, Bool-cases, inl, inr, length, replicate, memcpy,
  length-append, length-replicate, All, All-append, field, ◌≡◌, refl, sym, ap, ◌∙◌, arith,
}
use faster_config.Http.Escape.{acceptable, hex, escape_byte, escape, url_encode}
use faster_config.Http.Escape.RoundTrip.{
  holds_below, holds_below_at, map-escape, plus_to_space, unescape-url_encode,
}
use faster_config.Http.Vars.{Var, add_variable}
use faster_config.Http.Query.{c_string, store_from, store_data}

-- No '=' and no '&'.
abbrev pub is_plain : ℕ → Bool
is_plain c = not (c == b'=') && not (c == b'&')

abbrev pub IsName : Bytes → Type 0
IsName = All (λ c. (not (c == 0) && is_plain c) ≡ true)

abbrev Plain : Bytes → Type 0
Plain = All (λ c. is_plain c ≡ true)

memcpy-one :
    (p : Bytes) (r : ℕ) (rest : Bytes) (c : ℕ)
    → memcpy (p ++ r ∷ rest) (length p) (c ∷ []) ≡ p ++ c ∷ rest
memcpy-one [] r [] c = refl
memcpy-one [] r (d ∷ rest) c = refl
memcpy-one (q ∷ p) r rest c = ap (λ t. q ∷ t) (memcpy-one p r rest c)

store_from-char :
    (vars : List Var) (var : Bytes) (k c : ℕ) (t : Bytes)
    → (not (c == 0) && is_plain c) ≡ true
    → store_from vars var k none (c ∷ t) ≡ store_from vars (memcpy var k (c ∷ [])) (k + 1) none t
unfolding store_from
store_from-char vars var k c t h =
    let e : (c == b'=') ≡ false = ground arith in
    let a : (c == b'&') ≡ false = ground arith in rw (e, a)

-- The loop over a name.
store_from-name :
    (vars : List Var) (s p rest t : Bytes)
    → IsName s
    → length s < length rest
    → (r : ℕ) × (rest' : Bytes) × (store_from vars (p ++ rest) (length p) none (s ++ t)
        ≡ store_from vars (p ++ s ++ r ∷ rest') (length (p ++ s)) none t)
      × (length rest ≡ length s + suc (length rest'))
store_from-name vars [] p [] t h lt = absurd (omega (arith, lt))
store_from-name vars [] p (r ∷ rest) t h lt = (r, rest, rw (append-nil p), omega arith)
store_from-name vars (c ∷ s) p [] t h lt = absurd (omega (arith, lt))
store_from-name vars (c ∷ s) p (d ∷ rest) t (hc, hs) lt =
    let (r, rest', e, len) = store_from-name vars s (p ++ c ∷ []) rest t hs (omega (arith, lt)) in
    let one = memcpy-one p d rest c in
    let here : length p + 1 ≡ length (p ++ c ∷ []) = sym (length-append p (c ∷ [])) in
    let var : p ++ c ∷ rest ≡ p ++ c ∷ [] ++ rest = sym (append_assoc p (c ∷ []) rest) in
    let name : p ++ c ∷ [] ++ s ≡ p ++ c ∷ s = append_assoc p (c ∷ []) s in
    (
      r,
      rest',
      store_from-char vars (p ++ d ∷ rest) (length p) c (s ++ t) hc
          ∙ rw (one, here, var)
              (e ∙ ap (λ u. store_from vars (u ++ r ∷ rest') (length u) none t) name),
      omega (arith, len),
    )

store_from-value :
    (vars : List Var) (var : Bytes) (at : ℕ) (v s t : Bytes)
    → Plain s
    → store_from vars var at (some v) (s ++ t) ≡ store_from vars var at (some (v ++ s)) t
unfolding store_from
store_from-value vars var at v [] t h =
    ap (λ u. store_from vars var at (some u) t) (sym (append-nil v))
store_from-value vars var at v (c ∷ s) t (hc, hs) =
    let e : (c == b'=') ≡ false = ground arith in
    let a : (c == b'&') ≡ false = ground arith in
    rw (e, a)
      (store_from-value vars var at (v ++ c ∷ []) s t hs
        ∙ ap (λ u. store_from vars var at (some u) t) (append_assoc v (c ∷ []) s))

c_string-append : (s r : Bytes) → IsName s → c_string (s ++ 0 ∷ r) ≡ s
unfolding c_string
c_string-append [] r h = refl
c_string-append (c ∷ s) r (hc, hs) = rw (c_string-append s r hs) (ground arith)

table :
    holds_below 256 (λ c.
      (not (acceptable c) || is_plain c)
      && is_plain (hex (field c 4 4))
      && is_plain (hex (field c 0 4)))
    ≡ true
unfolding holds_below acceptable hex
table = refl

escape_byte-Plain : (c : ℕ) → c < 256 → Plain (escape_byte c)
unfolding escape_byte
escape_byte-Plain c h =
    let ok = holds_below_at 256 _ c table h in
    elim (Bool-cases (acceptable c)) [
      | inl e ↦ rw e (ground (arith, ok), tt)
      | inr e ↦ rw e (refl, (ground (arith, ok), (ground (arith, ok), tt)))
    ]

escape-Plain : (s : Bytes) → All IsByte s → Plain (escape s)
unfolding escape
escape-Plain [] h = tt
escape-Plain (c ∷ s) (hc, hs) =
    All-append _ (escape_byte c) (escape s) (escape_byte-Plain c hc) (escape-Plain s hs)

url_encode-Plain : (s : Bytes) → All IsByte s → Plain (url_encode s)
unfolding url_encode
url_encode-Plain s h = rw (map-escape s h) (escape-Plain s h)

-- A name with its value, and what follows it.
store_from-pair :
    (vars : List Var) (n v var t : Bytes)
    → IsName n
    → All IsByte v
    → length n < length var
    → (rest : Bytes) × (store_from vars var 0 none (n ++ b'=' ∷ (url_encode v ++ t))
        ≡ store_from vars (n ++ 0 ∷ rest) (length n) (some (url_encode v)) t)
      × (length (n ++ 0 ∷ rest) ≡ length var)
unfolding store_from
store_from-pair vars n v var t hn hv lt =
    let (r, rest, e, len) = store_from-name vars n [] var (b'=' ∷ (url_encode v ++ t)) hn lt in
    let ended = memcpy-one n r rest 0 in
    let value =
      store_from-value vars (n ++ 0 ∷ rest) (length n) [] (url_encode v) t
        (url_encode-Plain v hv) in
    (rest, e ∙ rw ended value, omega (arith, len, length-append n (0 ∷ rest)))

-- A query of names and escaped values.
abbrev pub query_of : List (Bytes × Bytes) → Bytes
query_of [] = []
query_of ((n, v) ∷ []) = n ++ b'=' ∷ (url_encode v ++ [])
query_of ((n, v) ∷ q ∷ ps) = n ++ b'=' ∷ (url_encode v ++ b'&' ∷ query_of (q ∷ ps))

abbrev pub add_all : List Var → List (Bytes × Bytes) → List Var
add_all vars [] = vars
add_all vars ((n, v) ∷ ps) = add_all (add_variable vars n (some (map plus_to_space v))) ps

abbrev pub IsPair : Bytes × Bytes → Type 0
IsPair (n, v) = IsName n × All IsByte v × All (λ c. not (c == 0) ≡ true) v

c_string-value :
    (v : Bytes)
    → All (λ c. not (c == 0) ≡ true) v
    → c_string (map plus_to_space v) ≡ map plus_to_space v
unfolding c_string
c_string-value [] h = refl
c_string-value (c ∷ v) (hc, hs) =
    let kept : (plus_to_space c == 0) ≡ false = ground (arith, hc) in
    rw (kept, c_string) (ap (λ t. plus_to_space c ∷ t) (c_string-value v hs))

store_from-query_of :
    (ps : List (Bytes × Bytes)) (vars : List Var) (var : Bytes)
    → All IsPair ps
    → length (query_of ps) < length var
    → store_from vars var 0 none (query_of ps) ≡ add_all vars ps
unfolding store_from
store_from-query_of [] vars var h lt = refl
store_from-query_of ((n, v) ∷ []) vars var ((hn, hv, hz), hs) lt =
    let long = length-append n (b'=' ∷ (url_encode v ++ [])) in
    let (rest, e, len) = store_from-pair vars n v var [] hn hv (omega (arith, lt, long)) in
    let name = c_string-append n rest hn in
    let value = ap c_string (unescape-url_encode v hv) ∙ c_string-value v hz in e ∙ rw (name, value)
store_from-query_of ((n, v) ∷ q ∷ ps) vars var ((hn, hv, hz), hs) lt =
    let more = b'&' ∷ query_of (q ∷ ps) in
    let long = length-append n (b'=' ∷ (url_encode v ++ more)) in
    let longer = length-append (url_encode v) more in
    let (rest, e, len) = store_from-pair vars n v var more hn hv (omega (arith, lt, long)) in
    let name = c_string-append n rest hn in
    let value = ap c_string (unescape-url_encode v hv) ∙ c_string-value v hz in
    let later =
      store_from-query_of (q ∷ ps) (add_variable vars n (some (map plus_to_space v)))
        (n ++ 0 ∷ rest) hs (omega (arith, lt, long, longer, len)) in
    e ∙ rw (name, value) later

-- A query of names and escaped values adds each name, in order, with its value, in which a plus has
-- become a space. The names have no '=', '&' or zero, and the values are bytes
-- other than zero.
pub store_data-query_of :
    (vars : List Var) (ps : List (Bytes × Bytes))
    → All IsPair ps
    → store_data vars (some (query_of ps)) ≡ add_all vars ps
unfolding store_data
store_data-query_of vars ps h =
    let long = length-replicate {A = ℕ} (length (query_of ps) + 1) 0 in
    store_from-query_of ps vars (replicate (length (query_of ps) + 1) 0) h (omega (arith, long))
