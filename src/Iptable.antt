-- ===== src/Iptable.antt =====
-- src/iptable.h and src/iptable.cpp: the commands that `Iptable` gives to the shell. `W` is the state
-- of the machine that a command changes; the shell with its iptables is a parameter. A port is not
-- negative.
pub mod Chains
pub mod Redirect
use faster_config.Base.{
  ℕ, zero, suc, ◌+◌, ◌/◌, ◌%◌, Option, none, some, List, [], ◌∷◌, ◌++◌, Bytes, codes, ◌==◌, ltb,
  Bool, true, false, ◌||◌, if◌then◌else◌,
}

-- The chains that the program makes, and their names.
pub data Chain : Type 0 where
  outgoing prerouting incoming postrouting : Chain

abbrev pub chain_name : Chain → Bytes
chain_name outgoing = codes "fasterconfig_Outgoing"
chain_name prerouting = codes "fasterconfig_prerouter"
chain_name incoming = codes "fasterconfig_Incoming"
chain_name postrouting = codes "fasterconfig_postrouting"

-- `%d`, of a number of at most ten digits.
unfoldable pub digits : ℕ → ℕ → Bytes
digits zero n = []
digits (suc fuel) n =
    let high = digits fuel (n / 10) in (if ltb n 10 then [] else high) ++ (b'0' + n % 10) ∷ []

unfoldable pub decimal : ℕ → Bytes
decimal n = digits 10 n

-- A '%' of a command is one of the format that `vasprintf` reads, without an argument for it.
unfoldable pub has_percent : Bytes → Bool
has_percent [] = false
has_percent (c ∷ s) = c == b'%' || has_percent s

-- How `waitpid` ends.
pub data Status : Type 0 where
  wait_failed killed : Status
  exited : ℕ → Status

-- The result of `execute`.
unfoldable pub return_code : Status → ℕ
return_code wait_failed = 1
return_code killed = 1
return_code (exited status) = status

-- The formats of `iptable_destroy_rule`, in its order.
unfoldable pub destroy_rule : List Bytes
destroy_rule =
    flush outgoing
    ∷ flush prerouting
    ∷ flush incoming
    ∷ flush postrouting
    ∷ delete outgoing
    ∷ delete prerouting
    ∷ delete incoming
    ∷ delete postrouting
    ∷ []
  where
    flush : Chain → Bytes
    flush c = codes "-t nat -F " ++ chain_name c

    delete : Chain → Bytes
    delete c = codes "-t nat -X " ++ chain_name c

-- Those of `iptabel_set_NewChain`.
unfoldable pub set_new_chain : List Bytes
set_new_chain =
    new outgoing
    ∷ new prerouting
    ∷ new incoming
    ∷ new postrouting
    ∷ (codes "-t nat -A OUTPUT       -j " ++ chain_name outgoing)
    ∷ (codes "-t nat -A PREROUTING   -j " ++ chain_name prerouting)
    ∷ (codes "-t nat -A INPUT        -j " ++ chain_name incoming)
    ∷ (codes "-t nat -A POSTROUTING  -j " ++ chain_name postrouting)
    ∷ []
  where
    new : Chain → Bytes
    new c = codes "-t nat -N " ++ chain_name c

-- Those of `iptable_redirect_dns`.
unfoldable pub redirect_dns : Bytes → ℕ → List Bytes
redirect_dns interface re_port =
    (codes " -t nat -I "
      ++ chain_name prerouting
      ++ codes " -i "
      ++ interface
      ++ codes " -p udp -m udp --dport 53 -j REDIRECT --to-ports "
      ++ decimal re_port)
    ∷ (codes " -t nat -I "
        ++ chain_name prerouting
        ++ codes " -i "
        ++ interface
        ++ codes " -p tcp -m tcp --dport 53 -j REDIRECT --to-ports "
        ++ decimal re_port)
    ∷ (codes " -t nat -A "
        ++ chain_name outgoing
        ++ codes " -p udp --dport "
        ++ decimal re_port
        ++ codes " -j DNAT --to 127.0.0.1:53")
    ∷ (codes " -t nat -A "
        ++ chain_name outgoing
        ++ codes " -p tcp --dport "
        ++ decimal re_port
        ++ codes " -j DNAT --to 127.0.0.1:53")
    ∷ []

-- The one that `iptable_redirect_http` still has.
unfoldable pub redirect_http : Bytes → ℕ → List Bytes
redirect_http dest_ip src_port =
    (codes " -t nat -A "
      ++ chain_name prerouting
      ++ codes "  -d  "
      ++ dest_ip
      ++ codes "  -p tcp --dport 80 -j REDIRECT --to-ports "
      ++ decimal src_port)
    ∷ []

module _ {W : Type 0} (shell : Bytes → W → W × Status) where
  -- `iptables_do_command` over `execute`; `none` is a format with a '%' in it.
  unfoldable pub do_command : Bytes → W → Option (W × ℕ)
  do_command format w =
      if has_percent format
      then none
      else (let (w', status) = shell (codes "iptables " ++ format) w in
          some (w', return_code status))

  -- Commands one after another: the return codes are not looked at.
  unfoldable pub do_commands : List Bytes → W → Option W
  do_commands [] w = some w
  do_commands (format ∷ formats) w = elim (do_command format w) [
    | none ↦ none
    | some (w', rc) ↦ do_commands formats w'
  ]
