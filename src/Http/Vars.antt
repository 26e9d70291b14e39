-- ===== src/Http/Vars.antt =====
-- src/httpd.cpp: `httpdAddVariable` and `httpdGetVariableByName`. The list over `nextVariable` is a
-- list of variables, each with the list over its `nextValue`.
use faster_config.Base.{
  Option, none, some, List, [], ◌∷◌, ◌++◌, Bytes, str_eq, str_eq_iff, ◌||◌, ◌==◌, if◌then◌else◌,
  ◌≡◌, arith,
}

-- A value is `none` for a null pointer.
pub record Var : Type 0 where
  pub name : Bytes
  pub value : Option Bytes
  pub next_values : List (Option Bytes)

-- `while (*name == ' ' || *name == '\t') name++`.
unfoldable pub skip_blanks : Bytes → Bytes
skip_blanks [] = []
skip_blanks (c ∷ s) = if c == b' ' || c == b'\t' then skip_blanks s else c ∷ s

-- The loops of `httpdAddVariable`: to the end of the values of the variable, or of the list.
unfoldable pub insert_variable : List Var → Bytes → Option Bytes → List Var
insert_variable [] name value = record { name = name; value = value; next_values = [] } ∷ []
insert_variable (cur ∷ vars) name value =
    if str_eq cur.name name
    then record cur { next_values = cur.next_values ++ value ∷ [] } ∷ vars
    else cur ∷ insert_variable vars name value

unfoldable pub add_variable : List Var → Bytes → Option Bytes → List Var
add_variable vars name value = insert_variable vars (skip_blanks name) value

unfoldable pub get_variable_by_name : List Var → Bytes → Option Var
get_variable_by_name [] name = none
get_variable_by_name (cur ∷ vars) name =
    if str_eq cur.name name then some cur else get_variable_by_name vars name

-- The variable that a name has after one more value: the first value stays, later ones follow it.
abbrev pub with_value : Bytes → Option Bytes → Option Var → Var
with_value name value none = record { name = name; value = value; next_values = [] }
with_value name value (some v) = record v { next_values = v.next_values ++ value ∷ [] }

get-insert_variable :
    (vars : List Var) (name : Bytes) (value : Option Bytes) (key : Bytes)
    → get_variable_by_name (insert_variable vars name value) key ≡ (
        if str_eq name key
        then some (with_value name value (get_variable_by_name vars key))
        else get_variable_by_name vars key)
unfolding insert_variable get_variable_by_name
get-insert_variable [] name value key = ground arith
get-insert_variable (v ∷ vars) name value key = ground (
  arith,
  str_eq_iff v.name name,
  str_eq_iff name key,
  str_eq_iff v.name key,
  get-insert_variable vars name value key,
)

-- Adding a variable changes what its own name, without leading blanks, finds and nothing else: a new
-- name is found with the value, a known one keeps its value and takes the new one behind those it has.
pub get-add_variable :
    (vars : List Var) (name : Bytes) (value : Option Bytes) (key : Bytes)
    → get_variable_by_name (add_variable vars name value) key ≡ (
        if str_eq (skip_blanks name) key
        then some (with_value (skip_blanks name) value (get_variable_by_name vars key))
        else get_variable_by_name vars key)
unfolding add_variable
get-add_variable vars name value key = get-insert_variable vars (skip_blanks name) value key
