-- ===== src/Http/Content.antt =====
-- src/httpd.h and src/httpd.cpp: the tree of directories with their entries, `_httpd_findContentDir`,
-- `httpdAddCContent`, `_httpd_findContentEntry`, and the choice that `httpdProcessRequest` makes.
-- A pointer into the tree that is read is the directory; one that is written through is the path to it.
pub mod Tree
pub mod Routes
use faster_config.Base.{
  ℕ, zero, suc, ◌+◌, ◌-◌, ◌*◌, ◌/◌, ◌%◌, ◌^◌, ◌≤◌, ◌<◌, min, Option, none, some, List, [], ◌∷◌,
  ◌++◌, map, append-nil, append_assoc, Bytes, codes, str_eq, str_eq_iff, str_eq_self, IsByte, Bool,
  true, false, not, ◌&&◌, ◌||◌, ◌==◌, ==_iff, ltb, leb, if◌then◌else◌, field, ltb→lt, lt→ltb,
  leb→le, le→leb, tests, Bool-cases, Option-cases, ◌>>=◌, length, get_elem?, get_or, take, drop,
  replicate, All, memcpy, length-append, take-append-drop, length-take, length-drop,
  length-replicate, length-map, All-append, take-length-append, drop-length-append, drop-nil,
  drop-drop, length-memcpy, memcpy-zero, take_all, drop-append, ◌≡◌, refl, sym, ap, ◌∙◌, subst, ◌≢◌,
  ◌↔◌, ◌⊎◌, inl, inr, arith,
}
use faster_config.Http.Url.{slash}

-- The kinds of content.
pub data ContentType : Type 0 where
  file c_funct ember_funct static wildcard c_wildcard : ContentType

-- The callbacks that the program registers.
pub data Callback : Type 0 where
  http_callback_fasterconfig : Callback

-- `struct _httpd_content`, without `preload`, which the server leaves NULL.
pub record Content : Type 0 where
  pub name : Bytes
  pub type : ContentType
  pub index_flag : Bool
  pub function : Callback
  pub static_data : Bytes
  pub path : Bytes

-- `struct _httpd_dir`: `children` is the list over `next` of the first child.
mutual
  pub data Dir : Type 0 where
    dir : Bytes → Dirs → List Content → Dir

  pub data Dirs : Type 0 where
    nil : Dirs
    cons : Dir → Dirs → Dirs

abbrev pub dir_name : Dir → Bytes
dir_name (dir n cs es) = n

abbrev pub entries : Dir → List Content
entries (dir n cs es) = es

-- The tokens that `strtok(buffer, "/")` gives: the runs of characters other than a slash.
abbrev flush : Bytes → List Bytes → List Bytes
flush [] ts = ts
flush (c ∷ w) ts = (c ∷ w) ∷ ts

unfoldable pub tokens_from : Bytes → Bytes → List Bytes
tokens_from word [] = flush word []
tokens_from word (c ∷ s) =
    let next = tokens_from [] s in
    let longer = tokens_from (word ++ c ∷ []) s in if c == slash then flush word next else longer

abbrev pub http_max_url : ℕ
http_max_url = 1024

-- The copy by `strncpy`, cut into tokens.
unfoldable pub dir_tokens : Bytes → List Bytes
unfolding tokens_from
dir_tokens path = tokens_from [] (take (http_max_url - 1) path)

-- `_httpd_findContentDir` with `createFlag` false, behind the tokens.
unfoldable mutual
  pub find_dir : Dir → List Bytes → Option Dir
  find_dir (dir n cs es) [] = some (dir n cs es)
  find_dir (dir n cs es) (t ∷ ts) = find_child cs t ts

  pub find_child : Dirs → Bytes → List Bytes → Option Dir
  find_child nil t ts = none
  find_child (cons d ds) t ts =
      let found = find_dir d ts in
      let later = find_child ds t ts in if str_eq (dir_name d) t then found else later

-- A directory for the first token, made with the rest of the path below it and `e` in the last one.
unfoldable pub new_dir : Bytes → List Bytes → Content → Dir
new_dir t [] e = dir t nil (e ∷ [])
new_dir t (u ∷ us) e = dir t (cons (new_dir u us e) nil) []

abbrev pub has_child : Dirs → Bytes → Bool
has_child nil t = false
has_child (cons d ds) t = str_eq (dir_name d) t || has_child ds t

-- `_httpd_findContentDir` with `createFlag` true, and the entry put first in what it finds.
unfoldable mutual
  pub add_entry : Dir → List Bytes → Content → Dir
  add_entry (dir n cs es) [] e = dir n cs (e ∷ es)
  add_entry (dir n cs es) (t ∷ ts) e =
      dir n (if has_child cs t then add_child cs t ts e else cons (new_dir t ts e) cs) es

  pub add_child : Dirs → Bytes → List Bytes → Content → Dirs
  add_child nil t ts e = nil
  add_child (cons d ds) t ts e =
      if str_eq (dir_name d) t then cons (add_entry d ts e) ds else cons d (add_child ds t ts e)

-- The entry that `httpdAddCContent` allocates.
abbrev pub c_entry : Bytes → Bool → Callback → Content
c_entry entry_name flag callback = record {
  name = entry_name;
  type = c_funct;
  index_flag = flag;
  function = callback;
  static_data = [];
  path = [];
}

-- `httpdAddCContent`.
unfoldable pub add_c_content : Dir → Bytes → Bytes → Bool → Callback → Dir
add_c_content root path name index_flag function =
    add_entry root (dir_tokens path) (c_entry name index_flag function)

abbrev is_wildcard : ContentType → Bool
is_wildcard wildcard = true
is_wildcard c_wildcard = true
is_wildcard _ = false

abbrev is_empty : Bytes → Bool
is_empty [] = true
is_empty (c ∷ s) = false

-- `_httpd_findContentEntry`.
unfoldable pub find_content_entry : List Content → Bytes → Option Content
find_content_entry [] entry_name = none
find_content_entry (cur ∷ es) entry_name =
    if is_wildcard cur.type || (is_empty entry_name && cur.index_flag) || str_eq cur.name entry_name
    then some cur
    else find_content_entry es entry_name

-- `strrchr(path, '/')`: what stands before the last slash, and behind it.
unfoldable pub split_last : Bytes → Option (Bytes × Bytes)
split_last [] = none
split_last (c ∷ s) = elim (split_last s) [
  | some (before, behind) ↦ some (c ∷ before, behind)
  | none ↦ if c == slash then some ([], s) else none
]

-- What `httpdProcessRequest` comes to; without a directory it reads the name of a null pointer.
pub data Route : Type 0 where
  no_slash null_read not_found : Route
  serve : Content → Route

-- The text at `cp` once the slash, or what follows it, has been overwritten.
abbrev pub cut_at : Bytes → Bytes
cut_at [] = slash ∷ []
cut_at (c ∷ before) = []

unfoldable pub process_request : Dir → Bytes → Route
unfolding dir_tokens
process_request root path = elim (split_last (take (http_max_url - 1) path)) [
  | none ↦ no_slash
  | some (before, entry_name) ↦ elim (find_dir root (dir_tokens (cut_at before))) [
    | none ↦ null_read
    | some d ↦ elim (find_content_entry (entries d) entry_name) [
      | none ↦ not_found
      | some e ↦ serve e
    ]
  ]
]

-- The tree that `httpdCreate` makes and `start` fills.
abbrev pub empty_root : Dir
empty_root = dir [] nil []

unfoldable pub start_content : Dir
unfolding add_c_content
start_content =
    add_c_content
      (add_c_content empty_root (codes "/") (codes "fasterconfig") false http_callback_fasterconfig)
      (codes "/fasterconfig") (codes "root") false http_callback_fasterconfig
