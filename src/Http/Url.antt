-- ===== src/Http/Url.antt =====
-- src/httpd.cpp: `_httpd_sanitiseUrl`. Each loop copies the text onto itself with `to` never ahead of
-- `from`, so it is a function from what is left at `from` to what is written; a NUL ends the text.
-- `skip` is what is still to add to `from`.
pub mod Slashes
pub mod Pushes
pub mod Parents
use faster_config.Base.{
  ℕ, zero, suc, ◌+◌, ◌-◌, ◌*◌, ◌/◌, ◌%◌, ◌^◌, ◌≤◌, ◌<◌, min, Option, none, some, List, [], ◌∷◌,
  ◌++◌, map, append-nil, append_assoc, Bytes, codes, str_eq, str_eq_iff, str_eq_self, IsByte, Bool,
  true, false, not, ◌&&◌, ◌||◌, ◌==◌, ==_iff, ltb, leb, if◌then◌else◌, field, ltb→lt, lt→ltb,
  leb→le, le→leb, tests, Bool-cases, Option-cases, ◌>>=◌, length, get_elem?, get_or, take, drop,
  replicate, All, memcpy, length-append, take-append-drop, length-take, length-drop,
  length-replicate, length-map, All-append, take-length-append, drop-length-append, drop-nil,
  drop-drop, length-memcpy, memcpy-zero, take_all, drop-append, ◌≡◌, refl, sym, ap, ◌∙◌, subst, ◌≢◌,
  ◌↔◌, ◌⊎◌, inl, inr, arith,
}

abbrev pub slash : ℕ
slash = b'/'

abbrev pub period : ℕ
period = b'.'

-- `*(p)`, `*(p + 1)`, … against the characters of a literal.
unfoldable pub starts_with : Bytes → Bytes → Bool
starts_with [] s = true
starts_with (p ∷ ps) [] = false
starts_with (p ∷ ps) (c ∷ s) = p == c && starts_with ps s

-- Remove multiple slashes.
unfoldable pub remove_slashes : Bytes → Bytes
unfolding starts_with
remove_slashes [] = []
remove_slashes (c ∷ s) =
    let rest = remove_slashes s in
    if c == slash && starts_with (slash ∷ []) s then rest else c ∷ rest

-- Get rid of ./ sequences.
unfoldable pub remove_dots : ℕ → Bytes → Bytes
unfolding starts_with
remove_dots skip [] = []
remove_dots (suc skip) (c ∷ s) = remove_dots skip s
remove_dots zero (c ∷ s) =
    let dropped = remove_dots 1 s in
    let kept = remove_dots 0 s in
    if c == slash && starts_with (period ∷ slash ∷ []) s then dropped else c ∷ kept

-- Catch use of /../ sequences; `out` is the text before `to`.
unfoldable pub remove_parents : ℕ → Bytes → ℕ → Bytes → Bytes
unfolding starts_with
remove_parents skip out last [] = out
remove_parents (suc skip) out last (c ∷ s) = remove_parents skip out last s
remove_parents zero out last (c ∷ s) =
    let back = remove_parents 2 (take last out) last s in
    let copied = remove_parents 0 (out ++ c ∷ []) (if c == slash then length out else last) s in
    if c == slash && starts_with (period ∷ period ∷ slash ∷ []) s then back else copied

-- `_httpd_sanitiseUrl`.
unfoldable pub sanitise_url : Bytes → Bytes
sanitise_url url = remove_parents 0 [] 0 (remove_dots 0 (remove_slashes url))
