-- ===== src/Control/Filtered.antt =====
-- src/application.cpp and src/iptable.cpp together: what the calls of the loop do to the packet filter.
use faster_config.Base.{
  ℕ, Bool, true, false, not, some, List, [], ◌∷◌, ◌++◌, map, Bytes, ◌≡◌, refl, sym, ap, ◌∙◌,
  append_assoc, Option-cases, inl, inr,
}
use faster_config.Control.{
  Reading, locked, Effect, redirect_dns, redirect_http, destroy_rule, start, run,
}
use faster_config.Control.Phases.{spells, rounds, run-rounds}
use faster_config.Iptable as Iptable
use faster_config.Iptable.{Chain, Status, has_percent, do_command, do_commands}
use faster_config.Iptable.Chains.{Filter, destroy-empty}
use faster_config.Iptable.Redirect.{redirected, AreRules, redirect-rules}

-- The members of `Application` that the calls pass on.
pub record Settings : Type 0 where
  pub ap_interface : Bytes
  pub dns_port : ℕ
  pub dns_ip : Bytes
  pub http_port : ℕ

-- The commands of a call.
abbrev pub commands : Settings → Effect → List Bytes
commands a destroy_rule = Iptable.destroy_rule
commands a redirect_dns = Iptable.redirect_dns a.ap_interface a.dns_port
commands a redirect_http = Iptable.redirect_http a.dns_ip a.http_port

-- Those of several calls.
abbrev pub all_commands : Settings → List Effect → List Bytes
all_commands a [] = []
all_commands a (e ∷ es) = commands a e ++ all_commands a es

-- Whether the last of the spells is locked.
abbrev pub ends_locked : Bool → List ℕ → Bool
ends_locked l [] = not l
ends_locked l (n ∷ ns) = ends_locked (not l) ns

-- The rules that are due.
abbrev pub rules_for {ℓ} : {R : Type ℓ} → (Bytes → R) → Settings → Bool → Chain → List R
rules_for rule_of a true c = redirected rule_of a.ap_interface a.dns_port a.dns_ip a.http_port c []
rules_for rule_of a false c = []

module _ {W : Type 0} (shell : Bytes → W → W × Status) (filter : Filter shell) (a : Settings)
    (plain_interface : has_percent a.ap_interface ≡ false) (plain_ip : has_percent a.dns_ip ≡ false)
    (accepted : AreRules filter.Accepts a.ap_interface a.dns_port a.dns_ip a.http_port) where
  do_commands-append :
      (fs gs : List Bytes) (w v : W)
      → do_commands shell fs w ≡ some v
      → do_commands shell (fs ++ gs) w ≡ do_commands shell gs v
  unfolding do_commands
  do_commands-append [] gs w v h = let e : w ≡ v = cc in rw e
  do_commands-append (f ∷ fs) gs w v h = elim (Option-cases (do_command shell f w)) [
    | inl e ↦ cc (rw (e, do_commands) at h)
    | inr ((w', rc), e) ↦
        rw (e, do_commands) (do_commands-append fs gs w' v (rw (e, do_commands) at h))
  ]

  follows :
      (l : Bool) (ns : List ℕ) (w : W)
      → filter.Linked w
      → ((c : Chain) → filter.rules w c ≡ rules_for filter.rule_of a (not l) c)
      → (w' : W) × (do_commands shell (all_commands a (rounds l ns)) w ≡ some w')
        × ((c : Chain) → filter.rules w' c ≡ rules_for filter.rule_of a (ends_locked l ns) c)
  follows l [] w linked h = (w, unfold do_commands in refl, h)
  follows true (n ∷ ns) w linked h =
      let (v, done, still, held) =
        redirect-rules shell filter w a.ap_interface a.dns_ip a.dns_port a.http_port plain_interface
          plain_ip accepted linked in
      let (w', rest, last) = follows false ns v still (λ c.
        held c
        ∙ ap (redirected filter.rule_of a.ap_interface a.dns_port a.dns_ip a.http_port c) (h c)) in
      let dns = Iptable.redirect_dns a.ap_interface a.dns_port in
      let http = Iptable.redirect_http a.dns_ip a.http_port in
      let later = all_commands a (rounds false ns) in
      (
        w',
        ap (λ fs. do_commands shell fs w) (sym (append_assoc dns http later))
            ∙ do_commands-append (dns ++ http) later w v done
            ∙ rest,
        last,
      )
  follows false (n ∷ ns) w linked h =
      let (v, done, still, empty) = destroy-empty shell filter w linked in
      let (w', rest, last) = follows true ns v still empty in
      (
        w',
        do_commands-append Iptable.destroy_rule (all_commands a (rounds true ns)) w v done ∙ rest,
        last,
      )

  -- When the four chains are empty, exist and are jumped to at the start of the loop, and the
  -- readings are spells of two passes or more that are locked and unlocked in turn, the first one
  -- locked, the commands of all calls leave the rules that the last spell asks for: those of the
  -- redirection, each once, if it is locked, and none if it is not. The interface and the address
  -- have no percent sign, and iptables accepts the five rules; assumed is what -F, -X, -I and -A
  -- of iptables do to such chains.
  pub run-rules_for :
      (rs : List Reading) (ns : List ℕ) (w : W)
      → map locked rs ≡ spells true ns
      → filter.Linked w
      → ((c : Chain) → filter.rules w c ≡ [])
      → (w' : W) × (do_commands shell (all_commands a (run rs start).1) w ≡ some w')
        × ((c : Chain) → filter.rules w' c ≡ rules_for filter.rule_of a (ends_locked true ns) c)
  run-rules_for rs ns w h linked empty =
      let same = run-rounds rs ns h in rw same (follows true ns w linked empty)
