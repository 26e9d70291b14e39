-- ===== src/Http/Page.antt =====
-- src/httpd.cpp: the loop of `httpdOutput`, which fills a page with the variables of a request.
-- `none` is a write outside `buf` or `varName`, or a null value that is read.
pub mod Expand
use faster_config.Base.{
  ℕ, zero, suc, ◌+◌, ◌-◌, ◌*◌, ◌/◌, ◌%◌, ◌^◌, ◌≤◌, ◌<◌, min, Option, none, some, List, [], ◌∷◌,
  ◌++◌, map, append-nil, append_assoc, Bytes, codes, str_eq, str_eq_iff, str_eq_self, IsByte, Bool,
  true, false, not, ◌&&◌, ◌||◌, ◌==◌, ==_iff, ltb, leb, if◌then◌else◌, field, ltb→lt, lt→ltb,
  leb→le, le→leb, tests, Bool-cases, Option-cases, ◌>>=◌, length, get_elem?, get_or, take, drop,
  replicate, All, memcpy, length-append, take-append-drop, length-take, length-drop,
  length-replicate, length-map, All-append, take-length-append, drop-length-append, drop-nil,
  drop-drop, length-memcpy, memcpy-zero, take_all, drop-append, ◌≡◌, refl, sym, ap, ◌∙◌, subst, ◌≢◌,
  ◌↔◌, ◌⊎◌, inl, inr, arith,
}
use faster_config.Http.Vars.{Var, get_variable_by_name}

abbrev pub http_max_len : ℕ
http_max_len = 10240

abbrev pub name_size : ℕ
name_size = 80

-- `isalnum(c) || c == '_'`.
abbrev pub is_name_char : ℕ → Bool
is_name_char c =
    (leb b'0' c && leb c b'9')
    || (leb b'A' c && leb c b'Z')
    || (leb b'a' c && leb c b'z')
    || c == b'_'

-- The name behind a '$', at most `room` characters of it.
unfoldable pub var_name : ℕ → Bytes → Bytes
var_name zero s = []
var_name (suc room) [] = []
var_name (suc room) (c ∷ s) = if is_name_char c then c ∷ var_name room s else []

-- What a '$' does: a variable whose value fits is written, otherwise the '$' stands for itself.
pub data Found : Type 0 where
  fault : Found
  nothing : Found
  value_of : Bytes → Found

unfoldable pub look_up : List Var → ℕ → Bytes → Found
look_up vars count name =
    if name_size == length name then fault else elim (get_variable_by_name vars name) [
      | none ↦ nothing
      | some v ↦ elim v.value [
        | none ↦ fault
        | some text ↦ if ltb (count + length text) http_max_len then value_of text else nothing
      ]
    ]

-- The loop. `skip` is what is left of `src = src + strlen(varName) + 1`, `out` the text before
-- `dest`. After a value `dest` stands at the end of the text, so `count += strlen(dest)` adds 0.
unfoldable pub output_loop : List Var → ℕ → Bytes → ℕ → Bytes → Option Bytes
output_loop vars skip out count [] = some out
output_loop vars (suc skip) out count (c ∷ src) = output_loop vars skip out count src
output_loop vars zero out count (c ∷ src) =
    let name = var_name name_size src in
    let copied = output_loop vars 0 (out ++ c ∷ []) (count + 1) src in
    if leb http_max_len count
    then some out
    else if c == b'$'
    then elim (look_up vars count name) [
      | fault ↦ none
      | nothing ↦ copied
      | value_of text ↦ output_loop vars (length name) (out ++ text) count src
    ]
    else copied

-- The text that `httpdOutput` leaves in `buf`, of `http_max_len` bytes with its terminator.
unfoldable pub output : List Var → Bytes → Option Bytes
unfolding output_loop
output vars msg = elim (output_loop vars 0 [] 0 msg) [
  | none ↦ none
  | some text ↦ if ltb (length text) http_max_len then some text else none
]
