-- ===== src/Http/Page/Expand.antt =====
-- What a page becomes: every '$' with the name of a variable is replaced by the variable's value.
use faster_config.Base.{
  ℕ, zero, suc, ◌+◌, ◌≤◌, ◌<◌, Option, none, some, List, [], ◌∷◌, ◌++◌, append-nil, append_assoc,
  Bytes, true, false, ◌==◌, ltb, leb, if◌then◌else◌, lt→ltb, Option-cases, ◌>>=◌, length, ◌≡◌, sym,
  ap, ◌∙◌, inl, inr, arith,
}
use faster_config.Http.Vars.{Var, get_variable_by_name}
use faster_config.Http.Page.{http_max_len, name_size, var_name, look_up, output_loop, output}

-- The value of a name, if a variable has it.
abbrev pub value_named : List Var → Bytes → Option Bytes
value_named vars name = get_variable_by_name vars name >>= λ v. v.value

-- The reference, with no counters and no limits.
pub expand : List Var → ℕ → Bytes → Bytes
expand vars skip [] = []
expand vars (suc skip) (c ∷ src) = expand vars skip src
expand vars zero (c ∷ src) =
    let name = var_name name_size src in
    let copied = c ∷ expand vars 0 src in
    if c == b'$'
    then elim (value_named vars name) [
      | none ↦ copied
      | some text ↦ text ++ expand vars (length name) src
    ]
    else copied

-- Every variable has a value, shorter than the page leaves room for.
abbrev pub Fits : ℕ → List Var → Type 0
Fits n vars =
    (key : Bytes) (v : Var)
    → get_variable_by_name vars key ≡ some v
    → (text : Bytes) × (v.value ≡ some text) × (n + length text < http_max_len)

-- No name is as long as `varName`.
abbrev pub HasShortNames : Bytes → Type 0
HasShortNames [] = Unit
HasShortNames (c ∷ s) = (length (var_name name_size s) < name_size) × HasShortNames s

output_loop-expand :
    (vars : List Var) (n skip : ℕ) (out : Bytes) (count : ℕ) (src : Bytes)
    → Fits n vars
    → HasShortNames src
    → count + length src ≤ n
    → n < http_max_len
    → output_loop vars skip out count src ≡ some (out ++ expand vars skip src)
unfolding output_loop expand look_up
output_loop-expand vars n skip out count [] fits short le lt = ap some (sym (append-nil out))
output_loop-expand vars n (suc skip) out count (c ∷ src) fits short le lt =
    output_loop-expand vars n skip out count src fits short.1 (omega arith) lt
output_loop-expand vars n zero out count (c ∷ src) fits short le lt =
    let name = var_name name_size src in
    let copied : output_loop vars 0 (out ++ c ∷ []) (count + 1) src
        ≡ some (out ++ c ∷ expand vars 0 src) =
      output_loop-expand vars n 0 (out ++ c ∷ []) (count + 1) src fits short.1 (omega arith) lt
      ∙ ap some (append_assoc out (c ∷ []) (expand vars 0 src)) in
    let room : leb http_max_len count ≡ false = ground arith in
    let named : (name_size == length name) ≡ false = ground arith in
    elim (Option-cases (get_variable_by_name vars name)) [
      | inl e ↦ ground arith
      | inr (v, e) ↦
          let (text, value, small) = fits name v e in
          let ih =
            output_loop-expand vars n (length name) (out ++ text) count src fits short.1
              (omega arith) lt
            ∙ ap some (append_assoc out text (expand vars (length name) src)) in
          let ok : ltb (count + length text) http_max_len ≡ true = lt→ltb _ _ (omega arith) in
          ground (arith, ih)
    ]

-- A page shorter than the buffer, whose variables all have values that leave room for its text,
-- becomes its expansion if that is shorter than the buffer; if it is not, `httpdOutput` writes
-- outside the buffer, since its count does not grow by the values it copies. No run of name
-- characters is as long as `varName`.
pub output-expand :
    (vars : List Var) (msg : Bytes)
    → Fits (length msg) vars
    → HasShortNames msg
    → length msg < http_max_len
    → output vars msg
      ≡ (if ltb (length (expand vars 0 msg)) http_max_len then some (expand vars 0 msg) else none)
unfolding output
output-expand vars msg fits short lt =
    rw (output_loop-expand vars (length msg) 0 [] 0 msg fits short (omega arith) lt, output)
