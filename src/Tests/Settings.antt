-- ===== src/Tests/Settings.antt =====
-- src/application.cpp and src/iptable.cpp: runs, and the theorems at concrete inputs.
use faster_config.Base.{
  Bool, ℕ, ◌≢◌, str_eq, none, some, List, [], ◌∷◌, ◌++◌, Bytes, codes, true, false, if◌then◌else◌,
  length, drop, ◌≡◌, refl,
}
use faster_config.Control.{is_locked, Reading, locked, redirect_dns, redirect_http, start, run}
use faster_config.Control.Network.{
  Interface, read_state, get_network_status, first_address, Any, IsUp, locked-read_state,
}
use faster_config.Http.Url.{starts_with}
use faster_config.Control.Phases.{settled, run-settles, run-brief}
use faster_config.Control.Filtered.{
  Settings as Portal, all_commands, ends_locked, rules_for, run-rules_for,
}
use faster_config.Iptable.{
  Chain, outgoing, prerouting, incoming, postrouting, chain_name, Status, exited, has_percent,
  decimal, do_commands,
}
use faster_config.Iptable.Chains.{Filter, same}
use faster_config.Iptable.Redirect.{redirected, AreRules, destroy-redirect}
use faster_config.Iptable as Iptable

abbrev lock : Reading
lock = record { gl_pathc = 1; network_up = true }

abbrev unlocked : Reading
unlocked = record { gl_pathc = 0; network_up = true }

abbrev down : Reading
down = record { gl_pathc = 0; network_up = false }

run-settles_example : (run (unlocked ∷ [] ++ lock ∷ down ∷ []) start).0 ≡ settled true
unfolding locked is_locked
run-settles_example = run-settles (unlocked ∷ []) lock down start refl

run-brief_example :
    run (lock ∷ unlocked ∷ unlocked ∷ []) start ≡ (start, redirect_dns ∷ redirect_http ∷ [])
unfolding locked is_locked
run-brief_example = run-brief (lock ∷ unlocked ∷ unlocked ∷ []) 1 refl

-- A shell whose machine is whether the chains are there and jumped to, and the rules of each chain.
abbrev Chains : Type 0
Chains = Chain → List Bytes

abbrev apply_command : Bytes → Bytes → List Bytes → List Bytes
apply_command command name rs =
    let inserted = codes "iptables  -t nat -I " ++ name in
    let appended = codes "iptables  -t nat -A " ++ name in
    if str_eq command (codes "iptables -t nat -F " ++ name)
    then []
    else if starts_with inserted command
    then drop (length inserted) command ∷ rs
    else if starts_with appended command
    then rs ++ drop (length appended) command ∷ []
    else rs

abbrev Machine : Type 0
Machine = Bool × Chains

abbrev table_shell : Bytes → Machine → Machine × Status
table_shell command (false, w) = ((false, w), exited 1)
table_shell command (true, w) = ((true, λ c. apply_command command (chain_name c) (w c)), exited 0)

abbrev machine_rules : Machine → Chain → List Bytes
machine_rules (b, w) = w

abbrev IsLinked : Machine → Type 0
IsLinked (b, w) = b ≡ true

abbrev IsRule : Bytes → Type 0
IsRule rule = starts_with (codes " ") rule ≡ true

table-Filter : Filter table_shell
unfolding str_eq starts_with
table-Filter = record {
  Rule = Bytes;
  rule_of = λ text. text;
  rules = machine_rules;
  Linked = IsLinked;
  Accepts = IsRule;
  flush = flushed;
  delete = deleted;
  insert = inserted;
  append = appended;
}
  where
    flush :
        (w : Chains) (c d : Chain)
        → apply_command (codes "iptables -t nat -F " ++ chain_name c) (chain_name d) (w d)
          ≡ (if same c d then [] else w d)
    flush w outgoing outgoing = refl
    flush w outgoing prerouting = refl
    flush w outgoing incoming = refl
    flush w outgoing postrouting = refl
    flush w prerouting outgoing = refl
    flush w prerouting prerouting = refl
    flush w prerouting incoming = refl
    flush w prerouting postrouting = refl
    flush w incoming outgoing = refl
    flush w incoming prerouting = refl
    flush w incoming incoming = refl
    flush w incoming postrouting = refl
    flush w postrouting outgoing = refl
    flush w postrouting prerouting = refl
    flush w postrouting incoming = refl
    flush w postrouting postrouting = refl

    delete :
        (w : Chains) (c d : Chain)
        → apply_command (codes "iptables -t nat -X " ++ chain_name c) (chain_name d) (w d) ≡ w d
    delete w outgoing outgoing = refl
    delete w outgoing prerouting = refl
    delete w outgoing incoming = refl
    delete w outgoing postrouting = refl
    delete w prerouting outgoing = refl
    delete w prerouting prerouting = refl
    delete w prerouting incoming = refl
    delete w prerouting postrouting = refl
    delete w incoming outgoing = refl
    delete w incoming prerouting = refl
    delete w incoming incoming = refl
    delete w incoming postrouting = refl
    delete w postrouting outgoing = refl
    delete w postrouting prerouting = refl
    delete w postrouting incoming = refl
    delete w postrouting postrouting = refl

    insert :
        (w : Chains) (c d : Chain) (rule : Bytes)
        → apply_command (codes "iptables  -t nat -I " ++ chain_name c ++ rule) (chain_name d) (w d)
          ≡ (if same c d then rule ∷ w d else w d)
    insert w outgoing outgoing rule = refl
    insert w outgoing prerouting rule = refl
    insert w outgoing incoming rule = refl
    insert w outgoing postrouting rule = refl
    insert w prerouting outgoing rule = refl
    insert w prerouting prerouting rule = refl
    insert w prerouting incoming rule = refl
    insert w prerouting postrouting rule = refl
    insert w incoming outgoing rule = refl
    insert w incoming prerouting rule = refl
    insert w incoming incoming rule = refl
    insert w incoming postrouting rule = refl
    insert w postrouting outgoing rule = refl
    insert w postrouting prerouting rule = refl
    insert w postrouting incoming rule = refl
    insert w postrouting postrouting rule = refl

    append :
        (w : Chains) (c d : Chain) (rule : Bytes)
        → apply_command (codes "iptables  -t nat -A " ++ chain_name c ++ rule) (chain_name d) (w d)
          ≡ (if same c d then w d ++ rule ∷ [] else w d)
    append w outgoing outgoing rule = refl
    append w outgoing prerouting rule = refl
    append w outgoing incoming rule = refl
    append w outgoing postrouting rule = refl
    append w prerouting outgoing rule = refl
    append w prerouting prerouting rule = refl
    append w prerouting incoming rule = refl
    append w prerouting postrouting rule = refl
    append w incoming outgoing rule = refl
    append w incoming prerouting rule = refl
    append w incoming incoming rule = refl
    append w incoming postrouting rule = refl
    append w postrouting outgoing rule = refl
    append w postrouting prerouting rule = refl
    append w postrouting incoming rule = refl
    append w postrouting postrouting rule = refl

    flushed :
        (m : Machine) (c : Chain)
        → IsLinked m
        → IsLinked (table_shell (codes "iptables -t nat -F " ++ chain_name c) m).0
          × ((d : Chain)
              → machine_rules (table_shell (codes "iptables -t nat -F " ++ chain_name c) m).0 d
                ≡ (if same c d then [] else machine_rules m d))
    flushed (true, w) c h = (refl, flush w c)
    flushed (false, w) c h = absurd (cc)

    deleted :
        (m : Machine) (c : Chain)
        → IsLinked m
        → IsLinked (table_shell (codes "iptables -t nat -X " ++ chain_name c) m).0
          × ((d : Chain)
              → machine_rules (table_shell (codes "iptables -t nat -X " ++ chain_name c) m).0 d
                ≡ machine_rules m d)
    deleted (true, w) c h = (refl, delete w c)
    deleted (false, w) c h = absurd (cc)

    inserted :
        (m : Machine) (c : Chain) (rule : Bytes)
        → IsLinked m
        → IsRule rule
        → IsLinked (table_shell (codes "iptables  -t nat -I " ++ chain_name c ++ rule) m).0
          × ((d : Chain)
              → machine_rules
                  (table_shell (codes "iptables  -t nat -I " ++ chain_name c ++ rule) m).0
                  d
                ≡ (if same c d then rule ∷ machine_rules m d else machine_rules m d))
    inserted (true, w) c rule h accepts = (refl, λ d. insert w c d rule)
    inserted (false, w) c rule h accepts = absurd (cc)

    appended :
        (m : Machine) (c : Chain) (rule : Bytes)
        → IsLinked m
        → IsRule rule
        → IsLinked (table_shell (codes "iptables  -t nat -A " ++ chain_name c ++ rule) m).0
          × ((d : Chain)
              → machine_rules
                  (table_shell (codes "iptables  -t nat -A " ++ chain_name c ++ rule) m).0
                  d
                ≡ (if same c d then machine_rules m d ++ rule ∷ [] else machine_rules m d))
    appended (true, w) c rule h accepts = (refl, λ d. append w c d rule)
    appended (false, w) c rule h accepts = absurd (cc)

abbrev no_rules : Machine
no_rules = (true, λ c. [])

rules_accepted : AreRules IsRule (codes "br-lan") 9000 (codes "172.31.255.240") 2049
unfolding starts_with
rules_accepted = (refl, refl, refl, refl, refl)

plain_device : has_percent (codes "br-lan") ≡ false
unfolding has_percent
plain_device = refl

plain_address : has_percent (codes "172.31.255.240") ≡ false
unfolding has_percent
plain_address = refl

destroy-redirect_example :
    (w1 w2 : Machine) × (do_commands table_shell Iptable.destroy_rule no_rules ≡ some w1)
    × (do_commands table_shell
          (Iptable.redirect_dns (codes "br-lan") 9000
            ++ Iptable.redirect_http (codes "172.31.255.240") 2049)
          w1
        ≡ some w2)
    × ((c : Chain) → machine_rules w1 c ≡ [])
    × ((c : Chain)
        → machine_rules w2 c
          ≡ redirected (λ text. text) (codes "br-lan") 9000 (codes "172.31.255.240") 2049 c [])
unfolding table-Filter
destroy-redirect_example =
    destroy-redirect table_shell table-Filter no_rules (codes "br-lan") (codes "172.31.255.240")
      9000 2049 plain_device plain_address rules_accepted refl

abbrev portal : Portal
portal = record {
  ap_interface = codes "br-lan";
  dns_port = 9000;
  dns_ip = codes "172.31.255.240";
  http_port = 2049;
}

run-rules_for_example :
    (w' : Machine) × (do_commands table_shell
        (all_commands portal (run (lock ∷ down ∷ lock ∷ unlocked ∷ unlocked ∷ []) start).1)
        no_rules
      ≡ some w')
    × ((c : Chain)
        → machine_rules w' c ≡ rules_for (λ text. text) portal (ends_locked true (1 ∷ 0 ∷ [])) c)
unfolding locked is_locked table-Filter
run-rules_for_example =
    run-rules_for table_shell table-Filter portal plain_device plain_address rules_accepted
      (lock ∷ down ∷ lock ∷ unlocked ∷ unlocked ∷ []) (1 ∷ 0 ∷ []) no_rules refl refl (λ c. refl)

abbrev device_list : List Interface
device_list =
    record { ifa_name = codes "lo"; ifa_addr = some (record { is_inet = true; printable = true }) }
    ∷ record { ifa_name = codes "apcli0"; ifa_addr = none }
    ∷ record {
      ifa_name = codes "apcli0";
      ifa_addr = some (record { is_inet = true; printable = true });
    }
    ∷ []

device-unlocked : locked (read_state 0 (some device_list) (codes "apcli0")) ≡ false
unfolding locked is_locked read_state get_network_status first_address str_eq
device-unlocked = refl

locked-read_state_example :
    (◌≢◌ {A = ℕ} 0 1)
    × ((list : List Interface) × (some device_list ≡ some list) × Any (IsUp (codes "apcli0")) list)
locked-read_state_example = locked-read_state 0 (some device_list) (codes "apcli0") device-unlocked
