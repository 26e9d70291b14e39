-- ===== src/Tests/Http.antt =====
-- src/httpd.cpp: runs of the functions of the server, and the theorems at concrete inputs.
use faster_config.Base.{
  map, ◌+◌, ◌*◌, ◌^◌, ◌≤◌, ◌<◌, none, some, List, [], ◌∷◌, codes, true, false, if◌then◌else◌, ltb,
  str_eq, length, All, ltb→lt, leb→le, ◌≡◌, ◌≢◌, ◌↔◌, refl, ap, arith,
}
use faster_config.Http.Url.{sanitise_url, remove_slashes, remove_dots, remove_parents, starts_with}
use faster_config.Http.Url.Slashes.{lacks, double, here}
use faster_config.Http.Url.Pushes.{above}
use faster_config.Http.Url.Parents.{sanitise_url-lacks}
use faster_config.Http.Escape.{url_encode, unescape}
use faster_config.Http.Escape.RoundTrip.{unescape-url_encode}
use faster_config.Http.Acl.{
  is_in_cidr_block, Cidr, AclRule, scan_cidr, acl_permit, acl_deny, add_acl, check_acl, cidr_of,
  atoi, after, digits_from, mask, ones, first_match,
}
use faster_config.Http.Acl.Mask.{leading, is_in_cidr_block_iff}
use faster_config.Http.Acl.Rules.{first_rule, IsAcl, check_acl-add_acl, check_acl-permit}
use faster_config.Http.Vars.{
  Var, skip_blanks, insert_variable, add_variable, get_variable_by_name, with_value,
  get-add_variable,
}
use faster_config.Http.Page.{http_max_len, output, var_name}
use faster_config.Http.Page.Expand.{expand, Fits, output-expand}
use faster_config.Http.Query.{store_data, store_from, c_string}
use faster_config.Http.Query.Pairs.{query_of, add_all, IsPair, store_data-query_of}
use faster_config.Http.Content.{
  http_callback_fasterconfig, c_entry, dir_tokens, tokens_from, find_dir, add_entry, add_c_content,
  empty_root, process_request,
}
use faster_config.Http.Content.Tree.{entries_of, find_dir-add_entry}
use faster_config.Http.Content.Routes.{process_request-add_c_content}

sanitise_url_climb : sanitise_url (codes "/a//b/../c/./d") ≡ codes "/a/c/d"
unfolding sanitise_url remove_slashes remove_dots remove_parents starts_with
sanitise_url_climb = refl

sanitise_url-lacks_example :
    (lacks double (sanitise_url (codes "/a//../b")) ≡ true)
    × (lacks here (sanitise_url (codes "/a//../b")) ≡ true)
    × (lacks above (sanitise_url (codes "/a//../b")) ≡ true)
sanitise_url-lacks_example = sanitise_url-lacks (codes "/a//../b")

text_bytes : All (λ c. c < 256) (codes "a+b %")
text_bytes = (
  ltb→lt _ _ refl,
  (ltb→lt _ _ refl, (ltb→lt _ _ refl, (ltb→lt _ _ refl, (ltb→lt _ _ refl, tt)))),
)

unescape-url_encode_example : unescape (some (url_encode (codes "a+b %"))) ≡ codes "a b %"
unescape-url_encode_example = unescape-url_encode (codes "a+b %") text_bytes

is_in_cidr_block_iff_example :
    (is_in_cidr_block (10 * 2 ^ 24) 8 (10 * 2 ^ 24 + 7) 32 ≡ true)
    ↔ ((8 ≤ 32) × (leading 8 (10 * 2 ^ 24) ≡ leading 8 (10 * 2 ^ 24 + 7)))
is_in_cidr_block_iff_example =
    is_in_cidr_block_iff (10 * 2 ^ 24) 8 (10 * 2 ^ 24 + 7) 32 (leb→le _ _ refl) (ltb→lt _ _ refl)
      (ltb→lt _ _ refl)

abbrev local_rule : AclRule
local_rule = record { block = record { addr = 10 * 2 ^ 24; len = 8 }; action = acl_permit }

local-IsAcl : IsAcl (local_rule ∷ [])
local-IsAcl = ((ltb→lt _ _ refl, leb→le _ _ refl), tt)

check_acl-permit_example :
    (a : Cidr) × (r : AclRule) × (scan_cidr (codes "10.1.2.3") ≡ some a)
    × (first_rule (local_rule ∷ []) a ≡ some r)
    × (r.action ≡ acl_permit)
    × (r.block.len ≤ a.len)
    × (leading r.block.len r.block.addr ≡ leading r.block.len a.addr)
unfolding check_acl scan_cidr cidr_of atoi after digits_from first_match is_in_cidr_block mask ones
check_acl-permit_example = check_acl-permit (local_rule ∷ []) (codes "10.1.2.3") local-IsAcl refl

check_acl-add_acl_example :
    IsAcl (local_rule ∷ record { block = record { addr = 0; len = 0 }; action = acl_deny } ∷ [])
    × (check_acl
          (local_rule ∷ record { block = record { addr = 0; len = 0 }; action = acl_deny } ∷ [])
          (codes "10.1.2.3")
        ≡ acl_permit)
unfolding scan_cidr cidr_of atoi after digits_from add_acl first_rule is_in_cidr_block mask ones
check_acl-add_acl_example =
    check_acl-add_acl (local_rule ∷ []) (codes "0.0.0.0/0") (codes "10.1.2.3") acl_deny local-IsAcl
      refl refl refl

get-add_variable_example :
    get_variable_by_name (add_variable [] (codes " name") (some (codes "x"))) (codes "name") ≡ (
      if str_eq (skip_blanks (codes " name")) (codes "name")
      then some (
          with_value
            (skip_blanks (codes " name"))
            (some (codes "x"))
            (get_variable_by_name [] (codes "name")))
      else get_variable_by_name [] (codes "name"))
get-add_variable_example = get-add_variable [] (codes " name") (some (codes "x")) (codes "name")

abbrev page_vars : List Var
page_vars = record { name = codes "n"; value = some (codes "me"); next_values = [] } ∷ []

page_vars-Fits : Fits 6 page_vars
unfolding get_variable_by_name
page_vars-Fits key v e = (codes "me", ground (arith, e), ltb→lt _ _ refl)

output-expand_example : output page_vars (codes "to $n.") ≡ (
    if ltb (length (expand page_vars 0 (codes "to $n."))) http_max_len
    then some (expand page_vars 0 (codes "to $n."))
    else none)
unfolding var_name get_variable_by_name
output-expand_example =
    output-expand page_vars (codes "to $n.") page_vars-Fits
      (
        ltb→lt _ _ refl,
        (
          ltb→lt _ _ refl,
          (ltb→lt _ _ refl, (ltb→lt _ _ refl, (ltb→lt _ _ refl, (ltb→lt _ _ refl, tt)))),
        ),
      )
      (ltb→lt _ _ refl)

-- The one directory of the path.
not_root : dir_tokens (codes "/a") ≢ []
unfolding dir_tokens tokens_from
not_root e = let n : 1 ≡ 0 = ap length e in omega (arith, n)

process_request-add_c_content_example :
    (process_request
        (add_c_content empty_root (codes "/a") (codes "b") false http_callback_fasterconfig)
        (codes "/a/b")
      ≡ process_request empty_root (codes "/a/b"))
    × (entries_of (
          find_dir
            (add_c_content empty_root (codes "/a") (codes "b") false http_callback_fasterconfig)
            (dir_tokens (codes "/a")))
        ≡ c_entry (codes "b") false http_callback_fasterconfig
          ∷ entries_of (find_dir empty_root (dir_tokens (codes "/a"))))
unfolding tokens_from
process_request-add_c_content_example =
    process_request-add_c_content empty_root (codes "/a") (codes "b") false
      http_callback_fasterconfig (codes "/a/b") not_root (leb→le _ _ refl)

find_dir-add_entry_example :
    entries_of (
      find_dir
        (add_entry empty_root
          (codes "a" ∷ [])
          (c_entry (codes "b") true http_callback_fasterconfig))
        (codes "a" ∷ []))
    ≡ c_entry (codes "b") true http_callback_fasterconfig
      ∷ entries_of (find_dir empty_root (codes "a" ∷ []))
find_dir-add_entry_example =
    find_dir-add_entry empty_root (codes "a" ∷ [])
      (c_entry (codes "b") true http_callback_fasterconfig)

pairs-IsPair : All IsPair ((codes "a", codes "b c") ∷ (codes "d", codes "&=") ∷ [])
pairs-IsPair = (
  (
    (refl, tt),
    (ltb→lt _ _ refl, (ltb→lt _ _ refl, (ltb→lt _ _ refl, tt))),
    (refl, (refl, (refl, tt))),
  ),
  (((refl, tt), (ltb→lt _ _ refl, (ltb→lt _ _ refl, tt)), (refl, (refl, tt))), tt),
)

store_data-query_of_example :
    store_data [] (some (query_of ((codes "a", codes "b c") ∷ (codes "d", codes "&=") ∷ [])))
    ≡ add_all [] ((codes "a", codes "b c") ∷ (codes "d", codes "&=") ∷ [])
store_data-query_of_example =
    store_data-query_of [] ((codes "a", codes "b c") ∷ (codes "d", codes "&=") ∷ []) pairs-IsPair

-- A name without '=' keeps the characters of an earlier, longer one.
store_data-stale :
    map (λ (v : Var). v.name) (store_data [] (some (codes "ab&c&"))) ≡ codes "ab" ∷ codes "cb" ∷ []
unfolding store_data store_from c_string add_variable insert_variable skip_blanks str_eq
store_data-stale = refl
