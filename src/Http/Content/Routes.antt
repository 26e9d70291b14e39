-- ===== src/Http/Content/Routes.antt =====
-- Which entry `httpdProcessRequest` serves.
use faster_config.Base.{
  ◌-◌, ◌≤◌, Option, none, some, List, [], ◌∷◌, Bytes, Bool, length, take_all, ◌≡◌, refl, sym, ◌∙◌,
  ◌≢◌, Option-cases, inl, inr,
}
use faster_config.Http.Content.{
  Content, Callback, c_entry, Dir, dir, entries, dir_tokens, find_dir, add_entry, add_c_content,
  find_content_entry, split_last, Route, no_slash, not_found, serve, cut_at, process_request,
  http_max_url,
}
use faster_config.Http.Content.Tree.{entries_of, find_dir-add_entry}

-- The entry of the root with the name behind the last slash.
abbrev pub route_by_name : Dir → Option (Bytes × Bytes) → Route
route_by_name root none = no_slash
route_by_name root (some (before, entry_name)) =
    elim (find_content_entry (entries root) entry_name) [ none ↦ not_found | some e ↦ serve e ]

root-cut_at : (root : Dir) (before : Bytes) → find_dir root (dir_tokens (cut_at before)) ≡ some root
unfolding dir_tokens find_dir
root-cut_at (dir n cs es) [] = refl
root-cut_at (dir n cs es) (c ∷ before) = refl

-- `httpdProcessRequest` looks in the root directory whatever directories the path names: only what
-- stands behind the last slash counts. The path fits `dirName`.
pub process_request-root :
    (root : Dir) (path : Bytes)
    → length path ≤ http_max_url - 1
    → process_request root path ≡ route_by_name root (split_last path)
unfolding process_request
process_request-root root path h =
    rw (take_all (http_max_url - 1) path h, process_request)
      (elim (Option-cases (split_last path)) [
        | inl e ↦ rw e
        | inr ((before, name), e) ↦ let found = root-cut_at root before in rw (e, found)
      ])

entries-add_entry :
    (d : Dir) (ts : List Bytes) (e : Content) → ts ≢ [] → entries (add_entry d ts e) ≡ entries d
unfolding add_entry
entries-add_entry (dir n cs es) [] e h = absurd (h refl)
entries-add_entry (dir n cs es) (t ∷ ts) e h = refl

-- An entry registered under a directory other than the root is stored there, in front of the
-- directory's entries, and changes nothing for any request: every path that fits `dirName` is
-- routed as before.
pub process_request-add_c_content :
    (root : Dir) (path name : Bytes) (index_flag : Bool) (function : Callback) (request : Bytes)
    → dir_tokens path ≢ []
    → length request ≤ http_max_url - 1
    → (process_request (add_c_content root path name index_flag function) request
        ≡ process_request root request)
      × (entries_of (find_dir (add_c_content root path name index_flag function) (dir_tokens path))
          ≡ c_entry name index_flag function ∷ entries_of (find_dir root (dir_tokens path)))
unfolding add_c_content
process_request-add_c_content root path name index_flag function request h short = (
  process_request-root _ request short
      ∙ by_name (split_last request)
      ∙ sym (process_request-root root request short),
  find_dir-add_entry root (dir_tokens path) (c_entry name index_flag function),
)
  where
    by_name :
        (o : Option (Bytes × Bytes))
        → route_by_name (add_entry root (dir_tokens path) (c_entry name index_flag function)) o
          ≡ route_by_name root o
    by_name none = refl
    by_name (some (before, entry_name)) =
        let same = entries-add_entry root (dir_tokens path) (c_entry name index_flag function) h in
        rw (same, route_by_name)
