-- ===== src/Http/Acl.antt =====
-- src/httpd.cpp: `scanCidr`, `_isInCidrBlock`, `httpdAddAcl` and `httpdCheckAcl`. An address is a
-- 32-bit pattern; a linked list of rules is a list. `none` is the result -1 of `scanCidr` and NULL.
pub mod Mask
pub mod Rules
use faster_config.Base.{
  ℕ, zero, suc, ◌+◌, ◌-◌, ◌*◌, ◌/◌, ◌%◌, ◌^◌, ◌≤◌, ◌<◌, min, Option, none, some, List, [], ◌∷◌,
  ◌++◌, map, append-nil, append_assoc, Bytes, codes, str_eq, str_eq_iff, str_eq_self, IsByte, Bool,
  true, false, not, ◌&&◌, ◌||◌, ◌==◌, ==_iff, ltb, leb, if◌then◌else◌, field, ltb→lt, lt→ltb,
  leb→le, le→leb, tests, Bool-cases, Option-cases, ◌>>=◌, length, get_elem?, get_or, take, drop,
  replicate, All, memcpy, length-append, take-append-drop, length-take, length-drop,
  length-replicate, length-map, All-append, take-length-append, drop-length-append, drop-nil,
  drop-drop, length-memcpy, memcpy-zero, take_all, drop-append, ◌≡◌, refl, sym, ap, ◌∙◌, subst, ◌≢◌,
  ◌↔◌, ◌⊎◌, inl, inr, arith,
}
use Prim.Native.Nat.{bit_and}

abbrev pub word : ℕ
word = 2 ^ 32

abbrev pub is_space : ℕ → Bool
is_space c = c == b' ' || (leb 9 c && leb c 13)

abbrev pub is_digit : ℕ → Bool
is_digit c = leb b'0' c && leb c b'9'

-- The digits that a text begins with, behind `n`.
unfoldable pub digits_from : ℕ → Bytes → ℕ
digits_from n [] = n
digits_from n (c ∷ s) = elim (is_digit c) [ true ↦ digits_from (n * 10 + (c - b'0')) s | false ↦ n ]

-- `atoi`, kept in a `u_int`: a negative number is its two's complement.
unfoldable pub atoi : Bytes → ℕ
unfolding digits_from
atoi [] = 0
atoi (c ∷ s) = elim (is_space c) [
  | true ↦ atoi s
  | false ↦
      if c == b'-'
      then (word - digits_from 0 s % word) % word
      else if c == b'+'
      then digits_from 0 s % word
      else digits_from 0 (c ∷ s) % word
]

-- `strchr` and the step behind what it finds.
unfoldable pub after : ℕ → Bytes → Option Bytes
after c [] = none
after c (x ∷ s) = if x == c then some s else after c s

pub record Cidr : Type 0 where
  pub addr : ℕ
  pub len : ℕ

-- The tests and the sum at the end of `scanCidr`.
unfoldable pub cidr_of : ℕ → ℕ → ℕ → ℕ → ℕ → Option Cidr
cidr_of res1 res2 res3 res4 res5 =
    if ltb 255 res1 || ltb 255 res2 || ltb 255 res3 || ltb 255 res4 || ltb 32 res5
    then none
    else some
        (record { addr = (res1 * 2 ^ 24 + res2 * 2 ^ 16 + res3 * 2 ^ 8 + res4) % word; len = res5 })

unfoldable pub scan_cidr : Bytes → Option Cidr
scan_cidr cp1 = do
  cp2 ← after b'.' cp1
  cp3 ← after b'.' cp2
  cp4 ← after b'.' cp3
  let res5 : ℕ = elim (after b'/' cp4) [ none ↦ 32 | some cp5 ↦ atoi cp5 ]
  cidr_of (atoi cp1) (atoi cp2) (atoi cp3) (atoi cp4) res5

-- The loop that builds the mask.
unfoldable pub ones : ℕ → ℕ
ones zero = 0
ones (suc n) = (ones n * 2 + 1) % word

-- `mask << (32 - len1)`. For `len1` 0 the shift is by the width, which C++ leaves undefined; the
-- mask is 0 then.
unfoldable pub mask : ℕ → ℕ
unfolding ones
mask len1 = ones len1 * 2 ^ (32 - len1) % word

-- `_isInCidrBlock`.
unfoldable pub is_in_cidr_block : ℕ → ℕ → ℕ → ℕ → Bool
is_in_cidr_block addr1 len1 addr2 len2 =
    if ltb len2 len1 then false else bit_and addr1 (mask len1) == bit_and addr2 (mask len1)

-- `HTTP_ACL_PERMIT` and `HTTP_ACL_DENY`.
abbrev pub acl_permit : ℕ
acl_permit = 1

abbrev pub acl_deny : ℕ
acl_deny = 2

pub record AclRule : Type 0 where
  pub block : Cidr
  pub action : ℕ

-- `httpdAddAcl`: the new rule goes to the end.
unfoldable pub add_acl : List AclRule → Bytes → ℕ → Option (List AclRule)
add_acl acl cidr action = elim (scan_cidr cidr) [
  | none ↦ none
  | some block ↦
      if not (action == acl_permit) && not (action == acl_deny)
      then none
      else some (acl ++ record { block = block; action = action } ∷ [])
]

-- The loop of `httpdCheckAcl`: the action of the first rule whose block holds the address.
unfoldable pub first_match : List AclRule → Cidr → ℕ
first_match [] a = acl_deny
first_match (cur ∷ acl) a =
    if is_in_cidr_block cur.block.addr cur.block.len a.addr a.len
    then cur.action
    else first_match acl a

-- The action that `httpdCheckAcl` returns.
unfoldable pub check_acl : List AclRule → Bytes → ℕ
unfolding first_match
check_acl acl client_addr = elim (scan_cidr client_addr) [
  | none ↦ acl_deny
  | some a ↦ first_match acl a
]
