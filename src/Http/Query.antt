-- ===== src/Http/Query.antt =====
-- src/httpd.cpp: `_httpd_storeData`, which takes the variables of a request from its query.
pub mod Pairs
use faster_config.Base.{
  ℕ, ◌+◌, Option, none, some, List, [], ◌∷◌, ◌++◌, Bytes, ◌==◌, if◌then◌else◌, length, replicate,
  memcpy,
}
use faster_config.Http.Escape.{unescape}
use faster_config.Http.Vars.{Var, add_variable}

-- The string in an array: what stands before the first terminator.
unfoldable pub c_string : Bytes → Bytes
c_string [] = []
c_string (c ∷ s) = let rest = c_string s in if c == 0 then [] else c ∷ rest

-- The loop over what is left at `cp`, and what follows it. `var` is the array, `at` the index of `cp2`,
-- and `val` the text between `val` and `cp`, or `none` for a null pointer. `strdup` keeps what stands
-- before the first zero of an unescaped value.
unfoldable pub store_from : List Var → Bytes → ℕ → Option Bytes → Bytes → List Var
store_from vars var at none [] = vars
store_from vars var at (some v) [] =
    add_variable vars (c_string var) (some (c_string (unescape (some v))))
store_from vars var at val (c ∷ cp) =
    let assigned = store_from vars (memcpy var at (0 ∷ [])) at (some []) cp in
    let stored = add_variable vars (c_string var) (some (c_string (unescape val))) in
    let next = store_from stored var 0 none cp in
    let go : List Var = elim val [
      | some v ↦ store_from vars var at (some (v ++ c ∷ [])) cp
      | none ↦ store_from vars (memcpy var at (c ∷ [])) (at + 1) none cp
    ] in
    if c == b'=' then assigned else if c == b'&' then next else go

-- `_httpd_storeData`; `none` is a null query.
unfoldable pub store_data : List Var → Option Bytes → List Var
store_data vars none = vars
store_data vars (some query) = store_from vars (replicate (length query + 1) 0) 0 none query
