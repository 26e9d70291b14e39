-- ===== src/Http/Accept/Permitted.antt =====
-- src/httpd.cpp: which clients `start` serves.
use faster_config.Base.{
  Option, none, some, List, [], ◌∷◌, Bytes, Bool, true, false, Bool-cases, Option-cases, ◌==◌,
  if◌then◌else◌, All, ◌≡◌, refl, ap, ◌∙◌, ◌≢◌, ◌⊎◌, inl, inr, arith,
}
use faster_config.Http.Acl.{
  AclRule, Cidr, acl_permit, acl_deny, first_match, scan_cidr, check_acl, is_in_cidr_block,
}
use faster_config.Http.Response.{Response, System}
use faster_config.Http.Serve.{Server, send403}
use faster_config.Http.Accept.{
  Call, no_request, request_for, waiting, Select, failed, timed_out, readable, wait_for, client_of,
  LastError, select_error, cleared_response, deny, acl_denied, check_default, get_connection,
  start_loop,
}

-- Each rule permits or denies, as `httpdAddAcl` sees to.
abbrev pub HasActions : List AclRule → Type 0
HasActions = All (λ r. (r.action ≡ acl_permit) ⊎ (r.action ≡ acl_deny))

first_match-cases :
    (acl : List AclRule) (a : Cidr)
    → HasActions acl
    → (first_match acl a ≡ acl_permit) ⊎ (first_match acl a ≡ acl_deny)
unfolding first_match
first_match-cases [] a h = inr refl
first_match-cases (r ∷ acl) a (h, hs) =
    elim (Bool-cases (is_in_cidr_block r.block.addr r.block.len a.addr a.len)) [
      | inl e ↦ rw e h
      | inr e ↦ rw e (first_match-cases acl a hs)
    ]

check_acl-cases :
    (acl : List AclRule) (client : Bytes)
    → HasActions acl
    → (check_acl acl client ≡ acl_permit) ⊎ (check_acl acl client ≡ acl_deny)
unfolding check_acl
check_acl-cases acl client h = elim (Option-cases (scan_cidr client)) [
  | inl e ↦ rw (check_acl, e) (inr refl)
  | inr (a, e) ↦ rw (check_acl, e) (first_match-cases acl a h)
]

-- The clients whose connections come in, in order.
abbrev pub connected : List Call → List Bytes
connected [] = []
connected (call ∷ calls) = elim (wait_for false call.selects) [
  | some c ↦ connected calls
  | none ↦ if call.allocated then client_of call.ipaddr ∷ connected calls else connected calls
]

-- Those of them that the list permits; without a list, all.
abbrev permits : List AclRule → Bytes → Bool
permits [] client = true
permits (rule ∷ acl) client = check_acl (rule ∷ acl) client == acl_permit

abbrev pub permitted : List AclRule → List Bytes → List Bytes
permitted acl [] = []
permitted acl (client ∷ clients) =
    let rest = permitted acl clients in if permits acl client then client ∷ rest else rest

-- The calls all end.
abbrev pub Ends : Call → Type 0
Ends call = wait_for false call.selects ≢ some waiting

abbrev sent_of : Option Response → Bytes
sent_of none = []
sent_of (some r) = r.sent

deny-sent :
    (sys : System) (server : Server) (client : Bytes)
    → server.error_function403 ≡ none
    → (sent : Bytes) × (deny sys server client ≡ no_request acl_denied sent)
unfolding deny send403
deny-sent sys server client stock =
    let stock_server : Server = record server { error_function403 = none } in
    (sent_of (send403 sys stock_server (cleared_response client)), rw (send403, stock))

check_default-permits :
    (sys : System) (server : Server) (acl : List AclRule) (client : Bytes)
    → HasActions acl
    → server.error_function403 ≡ none
    → ((permits acl client ≡ true) × (check_default sys server acl client ≡ request_for client))
      ⊎ ((permits acl client ≡ false)
          × ((sent : Bytes) × (check_default sys server acl client ≡ no_request acl_denied sent)))
unfolding check_default
check_default-permits sys server [] client h stock = inl (refl, refl)
check_default-permits sys server (rule ∷ acl) client h stock =
    elim (check_acl-cases (rule ∷ acl) client h) [
      | inl e ↦ inl (
        ground (arith, e),
        ap (λ n. if n == acl_deny then deny sys server client else request_for client) e,
      )
      | inr e ↦
          let (sent, denied) = deny-sent sys server client stock in
          inr (
            ground (arith, e),
            (
              sent,
              ap (λ n. if n == acl_deny then deny sys server client else request_for client) e
                  ∙ denied,
            ),
          )
    ]

-- Without a timeout, waiting ends with a connection or an error, or goes on.
wait_for-cases :
    (selects : List Select)
    → (wait_for false selects ≡ none)
      ⊎ (wait_for false selects ≡ some waiting)
      ⊎ ((e : LastError) × (wait_for false selects ≡ some (no_request e [])))
unfolding wait_for
wait_for-cases [] = inr (inl refl)
wait_for-cases (failed ∷ rest) = inr (inr (select_error, refl))
wait_for-cases (timed_out ∷ rest) = wait_for-cases rest
wait_for-cases (readable ∷ rest) = inl refl

-- `start` serves exactly the clients that its list permits, in the order of their connections: each
-- of them is handed to `pthread_create`, no other is, and neither errors nor denials stop the loop.
-- Each rule permits or denies, the error 403 has no callback, as `start` leaves it, and each call
-- ends.
pub start_loop-permitted :
    (sys : System) (server : Server) (acl : List AclRule) (calls : List Call)
    → HasActions acl
    → server.error_function403 ≡ none
    → All Ends calls
    → start_loop sys server acl calls ≡ permitted acl (connected calls)
unfolding start_loop get_connection
start_loop-permitted sys server acl [] h stock ends = refl
start_loop-permitted sys server acl (call ∷ calls) h stock (end, ends) =
    let ih = start_loop-permitted sys server acl calls h stock ends in
    elim (wait_for-cases call.selects) [
      | inr (inl e) ↦ absurd (end e)
      | inr (inr (error, e)) ↦ rw (start_loop, e) (rw (connected, e) ih)
      | inl ready ↦ elim (Bool-cases call.allocated) [
        | inr null ↦ rw (start_loop, ready) (rw null (rw (connected, ready) ih))
        | inl some_memory ↦
            elim (check_default-permits sys server acl (client_of call.ipaddr) h stock) [
              | inl (yes_permits, e) ↦
                  rw (start_loop, ready)
                    (rw some_memory (
                      rw e (
                        rw (connected, ready)
                          (rw (permitted, yes_permits) (ap (λ l. client_of call.ipaddr ∷ l) ih)))))
              | inr (denied, (sent, e)) ↦
                  rw (start_loop, ready)
                    (rw some_memory (rw e (rw (connected, ready) (rw (permitted, denied) ih))))
            ]
      ]
    ]
