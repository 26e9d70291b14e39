-- ===== src/Iptable/Redirect.antt =====
-- src/iptable.cpp: the rules that the redirections put into the chains.
use faster_config.Base.{ℕ, some, List, [], ◌∷◌, ◌++◌, Bytes, codes, false, ◌≡◌, refl, ap, ◌∙◌}
use faster_config.Iptable.{
  Chain, outgoing, prerouting, incoming, postrouting, chain_name, decimal, has_percent, Status,
  destroy_rule, redirect_dns, redirect_http, do_command, do_commands,
}
use faster_config.Iptable.Chains.{Filter, has_percent-append, has_percent-decimal, destroy-empty}

-- The rules, as they stand behind the name of their chain.
abbrev pub dns_rule : Bytes → Bytes → ℕ → Bytes
dns_rule protocol interface port = codes " -i " ++ interface ++ protocol ++ decimal port

abbrev pub udp_rule : Bytes → ℕ → Bytes
udp_rule = dns_rule (codes " -p udp -m udp --dport 53 -j REDIRECT --to-ports ")

abbrev pub tcp_rule : Bytes → ℕ → Bytes
tcp_rule = dns_rule (codes " -p tcp -m tcp --dport 53 -j REDIRECT --to-ports ")

abbrev pub back_rule : Bytes → ℕ → Bytes
back_rule protocol port = protocol ++ decimal port ++ codes " -j DNAT --to 127.0.0.1:53"

abbrev pub http_rule : Bytes → ℕ → Bytes
http_rule dest_ip port =
    codes "  -d  " ++ dest_ip ++ codes "  -p tcp --dport 80 -j REDIRECT --to-ports " ++ decimal port

-- The rules of the redirection of DNS and HTTP, around those that a chain holds already.
abbrev pub redirected {ℓ} :
    {R : Type ℓ} → (Bytes → R) → Bytes → ℕ → Bytes → ℕ → Chain → List R → List R
redirected rule_of interface dns_port dest_ip http_port prerouting rs =
    rule_of (tcp_rule interface dns_port) ∷ rule_of (udp_rule interface dns_port) ∷ rs
    ++ rule_of (http_rule dest_ip http_port) ∷ []
redirected rule_of interface dns_port dest_ip http_port outgoing rs =
    rs
    ++ rule_of (back_rule (codes " -p udp --dport ") dns_port) ∷ []
    ++ rule_of (back_rule (codes " -p tcp --dport ") dns_port) ∷ []
redirected rule_of interface dns_port dest_ip http_port incoming rs = rs
redirected rule_of interface dns_port dest_ip http_port postrouting rs = rs

-- The five rules are ones that iptables accepts.
abbrev pub AreRules : (Bytes → Type 0) → Bytes → ℕ → Bytes → ℕ → Type 0
AreRules Accepts interface dns_port dest_ip http_port =
    Accepts (udp_rule interface dns_port)
    × Accepts (tcp_rule interface dns_port)
    × Accepts (back_rule (codes " -p udp --dport ") dns_port)
    × Accepts (back_rule (codes " -p tcp --dport ") dns_port)
    × Accepts (http_rule dest_ip http_port)

pf_dns :
    (protocol interface : Bytes) (port : ℕ)
    → has_percent protocol ≡ false
    → has_percent interface ≡ false
    → has_percent (codes " -t nat -I " ++ chain_name prerouting ++ dns_rule protocol interface port)
      ≡ false
unfolding has_percent
pf_dns protocol interface port hp hi =
    has_percent-append (interface ++ protocol) (decimal port)
      (has_percent-append interface protocol hi hp) (has_percent-decimal port)

udp_plain : has_percent (codes " -p udp -m udp --dport 53 -j REDIRECT --to-ports ") ≡ false
unfolding has_percent
udp_plain = refl

tcp_plain : has_percent (codes " -p tcp -m tcp --dport 53 -j REDIRECT --to-ports ") ≡ false
unfolding has_percent
tcp_plain = refl

pf_udp :
    (port : ℕ)
    → has_percent
        (codes " -t nat -A " ++ chain_name outgoing ++ back_rule (codes " -p udp --dport ") port)
      ≡ false
unfolding has_percent
pf_udp port =
    has_percent-append (decimal port) (codes " -j DNAT --to 127.0.0.1:53")
      (has_percent-decimal port) refl

pf_tcp :
    (port : ℕ)
    → has_percent
        (codes " -t nat -A " ++ chain_name outgoing ++ back_rule (codes " -p tcp --dport ") port)
      ≡ false
unfolding has_percent
pf_tcp port =
    has_percent-append (decimal port) (codes " -j DNAT --to 127.0.0.1:53")
      (has_percent-decimal port) refl

pf_http :
    (dest_ip : Bytes) (port : ℕ)
    → has_percent dest_ip ≡ false
    → has_percent (codes " -t nat -A " ++ chain_name prerouting ++ http_rule dest_ip port) ≡ false
unfolding has_percent
pf_http dest_ip port h =
    has_percent-append (dest_ip ++ codes "  -p tcp --dport 80 -j REDIRECT --to-ports ")
      (decimal port)
      (has_percent-append dest_ip (codes "  -p tcp --dport 80 -j REDIRECT --to-ports ") h refl)
      (has_percent-decimal port)

module _ {W : Type 0} (shell : Bytes → W → W × Status) (filter : Filter shell) where
  do_commands-cons :
      (f : Bytes) (fs : List Bytes) (w : W)
      → has_percent f ≡ false
      → do_commands shell (f ∷ fs) w ≡ do_commands shell fs (shell (codes "iptables " ++ f) w).0
  unfolding do_commands do_command
  do_commands-cons f fs w h = rw (h, do_commands)

  -- Redirecting puts the rules around what the chains hold: the two for DNS first, the one for
  -- HTTP last, and the two for the way out last; the other chains stay. The interface and the
  -- address have no percent sign, iptables accepts the five rules, and the chains are linked.
  pub redirect-rules :
      (w : W) (interface dest_ip : Bytes) (dns_port http_port : ℕ)
      → has_percent interface ≡ false
      → has_percent dest_ip ≡ false
      → AreRules filter.Accepts interface dns_port dest_ip http_port
      → filter.Linked w
      → (w' : W) × (do_commands shell
            (redirect_dns interface dns_port ++ redirect_http dest_ip http_port)
            w
          ≡ some w')
        × filter.Linked w'
        × ((c : Chain)
            → filter.rules w' c
              ≡ redirected filter.rule_of interface dns_port dest_ip http_port c (filter.rules w c))
  unfolding redirect_dns redirect_http do_commands
  redirect-rules w interface dest_ip dns_port http_port hi hd (r1, r2, r3, r4, r5) linked =
      let udp = udp_rule interface dns_port in
      let tcp = tcp_rule interface dns_port in
      let back_udp = back_rule (codes " -p udp --dport ") dns_port in
      let back_tcp = back_rule (codes " -p tcp --dport ") dns_port in
      let http = http_rule dest_ip http_port in
      let w1 = (shell (codes "iptables  -t nat -I " ++ chain_name prerouting ++ udp) w).0 in
      let w2 = (shell (codes "iptables  -t nat -I " ++ chain_name prerouting ++ tcp) w1).0 in
      let w3 = (shell (codes "iptables  -t nat -A " ++ chain_name outgoing ++ back_udp) w2).0 in
      let w4 = (shell (codes "iptables  -t nat -A " ++ chain_name outgoing ++ back_tcp) w3).0 in
      let w5 = (shell (codes "iptables  -t nat -A " ++ chain_name prerouting ++ http) w4).0 in
      let h1 =
        pf_dns (codes " -p udp -m udp --dport 53 -j REDIRECT --to-ports ") interface dns_port
          udp_plain hi in
      let h2 =
        pf_dns (codes " -p tcp -m tcp --dport 53 -j REDIRECT --to-ports ") interface dns_port
          tcp_plain hi in
      let t1 : List Bytes = (codes " -t nat -A " ++ chain_name prerouting ++ http) ∷ [] in
      let t2 : List Bytes = (codes " -t nat -A " ++ chain_name outgoing ++ back_tcp) ∷ t1 in
      let t3 : List Bytes = (codes " -t nat -A " ++ chain_name outgoing ++ back_udp) ∷ t2 in
      let t4 : List Bytes = (codes " -t nat -I " ++ chain_name prerouting ++ tcp) ∷ t3 in
      let run : do_commands shell
            (redirect_dns interface dns_port ++ redirect_http dest_ip http_port) w
          ≡ some w5 =
        do_commands-cons _ t4 w h1
        ∙ do_commands-cons _ t3 w1 h2
        ∙ do_commands-cons _ t2 w2 (pf_udp dns_port)
        ∙ do_commands-cons _ t1 w3 (pf_tcp dns_port)
        ∙ do_commands-cons _ [] w4 (pf_http dest_ip http_port hd) in
      let (l1, i1) = filter.insert w prerouting udp linked r1 in
      let (l2, i2) = filter.insert w1 prerouting tcp l1 r2 in
      let (l3, a3) = filter.append w2 outgoing back_udp l2 r3 in
      let (l4, a4) = filter.append w3 outgoing back_tcp l3 r4 in
      let (l5, a5) = filter.append w4 prerouting http l4 r5 in
      let both : (c : Chain)
          → filter.rules w5 c
            ≡ redirected filter.rule_of interface dns_port dest_ip http_port c (filter.rules w c) =
        λ c.
          elim c
            as (λ k.
              filter.rules w5 k
              ≡ redirected filter.rule_of interface dns_port dest_ip http_port k
                  (filter.rules w k)) [
                    | outgoing ↦
                        a5 outgoing
                        ∙ a4 outgoing
                        ∙ ap (λ rs. rs ++ filter.rule_of back_tcp ∷ [])
                            (a3 outgoing
                              ∙ ap (λ rs. rs ++ filter.rule_of back_udp ∷ [])
                                  (i2 outgoing ∙ i1 outgoing))
                    | prerouting ↦
                        a5 prerouting
                        ∙ ap (λ rs. rs ++ filter.rule_of http ∷ [])
                            (a4 prerouting
                              ∙ a3 prerouting
                              ∙ i2 prerouting
                              ∙ ap (λ rs. filter.rule_of tcp ∷ rs) (i1 prerouting))
                    | incoming ↦ a5 incoming ∙ a4 incoming ∙ a3 incoming ∙ i2 incoming ∙ i1 incoming
                    | postrouting ↦
                        a5 postrouting
                        ∙ a4 postrouting
                        ∙ a3 postrouting
                        ∙ i2 postrouting
                        ∙ i1 postrouting
                  ] in
      (w5, run, l5, both)

  -- `iptable_destroy_rule` leaves all four chains empty and in place, and the redirection of DNS and
  -- HTTP behind it leaves the rules of the redirection, each once, whatever the chains held. The
  -- interface and the address have no percent sign, iptables accepts the five rules, and the four
  -- chains exist and are jumped to, as `iptabel_set_NewChain` leaves them; assumed is what -F, -X, -I
  -- and -A of iptables do in such a state.
  pub destroy-redirect :
      (w : W) (interface dest_ip : Bytes) (dns_port http_port : ℕ)
      → has_percent interface ≡ false
      → has_percent dest_ip ≡ false
      → AreRules filter.Accepts interface dns_port dest_ip http_port
      → filter.Linked w
      → (w1 w2 : W) × (do_commands shell destroy_rule w ≡ some w1)
        × (do_commands shell (redirect_dns interface dns_port ++ redirect_http dest_ip http_port) w1
            ≡ some w2)
        × ((c : Chain) → filter.rules w1 c ≡ [])
        × ((c : Chain)
            → filter.rules w2 c
              ≡ redirected filter.rule_of interface dns_port dest_ip http_port c [])
  destroy-redirect w interface dest_ip dns_port http_port hi hd accepted linked =
      let (w1, first, still, empty) = destroy-empty shell filter w linked in
      let (w2, second, last, now) =
        redirect-rules w1 interface dest_ip dns_port http_port hi hd accepted still in
      (
        w1,
        w2,
        first,
        second,
        empty,
        λ c.
            now c ∙ ap (redirected filter.rule_of interface dns_port dest_ip http_port c) (empty c),
      )
