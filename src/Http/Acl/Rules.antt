-- ===== src/Http/Acl/Rules.antt =====
-- The list of rules: the first whose block holds the client decides, and without one it is denied.
use faster_config.Base.{
  ℕ, ◌≤◌, ◌<◌, Option, none, some, List, [], ◌∷◌, ◌++◌, Bytes, Bool, if◌then◌else◌, Bool-cases,
  Option-cases, All, All-append, ◌≡◌, refl, inl, inr, arith,
}
use faster_config.Http.Acl.{
  word, is_in_cidr_block, Cidr, AclRule, cidr_of, scan_cidr, acl_permit, acl_deny, add_acl,
  first_match, check_acl,
}
use faster_config.Http.Acl.Mask.{leading, is_in_cidr_block_iff}

-- A rule holds an address.
abbrev holds : AclRule → Cidr → Bool
holds r a = is_in_cidr_block r.block.addr r.block.len a.addr a.len

-- The first rule that holds an address.
unfoldable pub first_rule : List AclRule → Cidr → Option AclRule
first_rule [] a = none
first_rule (r ∷ rs) a = if holds r a then some r else first_rule rs a

first_match-append :
    (acl : List AclRule) (r : AclRule) (a : Cidr)
    → first_match (acl ++ r ∷ []) a ≡ elim (first_rule acl a) [
      | some q ↦ q.action
      | none ↦ if holds r a then r.action else acl_deny
    ]
unfolding first_match first_rule
first_match-append [] r a = refl
first_match-append (q ∷ acl) r a = ground (arith, first_match-append acl r a)

-- What `scanCidr` accepts is a 32-bit address with a prefix of at most 32 bits.
abbrev pub IsCidr : Cidr → Type 0
IsCidr c = (c.addr < word) × (c.len ≤ 32)

pub scan_cidr-IsCidr : (s : Bytes) {c : Cidr} → scan_cidr s ≡ some c → IsCidr c
unfolding scan_cidr cidr_of
scan_cidr-IsCidr s h = ground arith

-- The invariant of a server's list of rules.
abbrev pub IsAcl : List AclRule → Type 0
IsAcl = All (λ r. IsCidr r.block)

-- A rule added last leaves a well-formed list well formed and decides only where no earlier rule
-- holds the client: the action of the earliest rule that does wins, and where the new one does not
-- hold it either, the client is denied. Both addresses are readable, and the rule is accepted.
pub check_acl-add_acl :
    (acl : List AclRule) (cidr client : Bytes) (action : ℕ) {acl' : List AclRule} {b a : Cidr}
    → IsAcl acl
    → scan_cidr cidr ≡ some b
    → scan_cidr client ≡ some a
    → add_acl acl cidr action ≡ some acl'
    → IsAcl acl'
      × (check_acl acl' client ≡ elim (first_rule acl a) [
        | some q ↦ q.action
        | none ↦ if is_in_cidr_block b.addr b.len a.addr a.len then action else acl_deny
      ])
unfolding add_acl check_acl
check_acl-add_acl acl cidr client action {acl'} {b} {a} ok hb ha h =
    let r : AclRule = record { block = b; action = action } in
    let e : acl' ≡ acl ++ r ∷ [] = ground (arith, hb, h) in
    rw e (
      All-append _ acl (r ∷ []) ok (scan_cidr-IsCidr cidr hb, tt),
      rw (ha, check_acl) (first_match-append acl r a),
    )

first_match-permit :
    (acl : List AclRule) (a : Cidr)
    → IsAcl acl
    → IsCidr a
    → first_match acl a ≡ acl_permit
    → (r : AclRule) × (first_rule acl a ≡ some r)
      × (r.action ≡ acl_permit)
      × (r.block.len ≤ a.len)
      × (leading r.block.len r.block.addr ≡ leading r.block.len a.addr)
unfolding first_match first_rule
first_match-permit [] a ok ha h = absurd (omega arith)
first_match-permit (r ∷ acl) a (hr, ok) ha h = elim (Bool-cases (holds r a)) [
  | inl e ↦
      let (l, m) =
        (is_in_cidr_block_iff r.block.addr r.block.len a.addr a.len hr.1 hr.0 ha.0).0 e in
      (r, rw e, rw e at h, l, m)
  | inr e ↦ let (q, f, p, l, m) = first_match-permit acl a ok ha (rw e at h) in (q, rw e f, p, l, m)
]

-- If `httpdCheckAcl` permits a client, its address was readable and the first rule whose block
-- holds the address permits, its prefix being no longer than the client's and the leading bits
-- equal. The blocks of the rules are ones that `scanCidr` accepts.
pub check_acl-permit :
    (acl : List AclRule) (client : Bytes)
    → IsAcl acl
    → check_acl acl client ≡ acl_permit
    → (a : Cidr) × (r : AclRule) × (scan_cidr client ≡ some a)
      × (first_rule acl a ≡ some r)
      × (r.action ≡ acl_permit)
      × (r.block.len ≤ a.len)
      × (leading r.block.len r.block.addr ≡ leading r.block.len a.addr)
unfolding check_acl
check_acl-permit acl client ok h = elim (Option-cases (scan_cidr client)) [
  | inl e ↦ absurd (denied (rw (e, check_acl) at h))
  | inr (a, e) ↦
      let (r, f, p, l, m) =
        first_match-permit acl a ok (scan_cidr-IsCidr client e) (rw (e, check_acl) at h) in
      (a, r, e, f, p, l, m)
]
  where
    denied : acl_deny ≡ acl_permit → ⊥
    denied q = omega arith
