-- ===== src/Iptable/Chains.antt =====
-- src/iptable.cpp: what the chains hold after the commands.
use faster_config.Base.{
  ℕ, zero, suc, some, List, [], ◌∷◌, ◌++◌, Bytes, codes, Bool, true, false, ◌||◌, ltb, ◌+◌, ◌/◌,
  ◌%◌, if◌then◌else◌, ◌≡◌, refl, ◌∙◌, arith, Bool-cases, inl, inr,
}
use faster_config.Iptable.{
  Chain, outgoing, prerouting, incoming, postrouting, chain_name, digits, decimal, has_percent,
  Status, destroy_rule, do_command, do_commands,
}

abbrev pub same : Chain → Chain → Bool
same outgoing outgoing = true
same prerouting prerouting = true
same incoming incoming = true
same postrouting postrouting = true
same _ _ = false

-- What is assumed of iptables, in a state in which the four chains exist and a built-in chain jumps to
-- each of them, as `iptabel_set_NewChain` leaves them: -F empties its chain; -X fails, since the chain
-- is referred to, and leaves all rules; -I puts a rule that iptables accepts first in its chain, and -A
-- last. No such command takes a jump or a chain away. `rule_of` is the rule that a text means.
pub record Filter {W : Type 0} (shell : Bytes → W → W × Status) : Type 1 where
  pub Rule : Type 0
  pub rule_of : Bytes → Rule
  pub rules : W → Chain → List Rule
  pub Linked : W → Type 0
  pub Accepts : Bytes → Type 0
  pub flush :
      (w : W) (c : Chain)
      → Linked w
      → Linked (shell (codes "iptables -t nat -F " ++ chain_name c) w).0
        × ((d : Chain)
            → rules (shell (codes "iptables -t nat -F " ++ chain_name c) w).0 d
              ≡ (if same c d then [] else rules w d))
  pub delete :
      (w : W) (c : Chain)
      → Linked w
      → Linked (shell (codes "iptables -t nat -X " ++ chain_name c) w).0
        × ((d : Chain)
            → rules (shell (codes "iptables -t nat -X " ++ chain_name c) w).0 d ≡ rules w d)
  pub insert :
      (w : W) (c : Chain) (rule : Bytes)
      → Linked w
      → Accepts rule
      → Linked (shell (codes "iptables  -t nat -I " ++ chain_name c ++ rule) w).0
        × ((d : Chain)
            → rules (shell (codes "iptables  -t nat -I " ++ chain_name c ++ rule) w).0 d
              ≡ (if same c d then rule_of rule ∷ rules w d else rules w d))
  pub append :
      (w : W) (c : Chain) (rule : Bytes)
      → Linked w
      → Accepts rule
      → Linked (shell (codes "iptables  -t nat -A " ++ chain_name c ++ rule) w).0
        × ((d : Chain)
            → rules (shell (codes "iptables  -t nat -A " ++ chain_name c ++ rule) w).0 d
              ≡ (if same c d then rules w d ++ rule_of rule ∷ [] else rules w d))

pub has_percent-append :
    (s t : Bytes) → has_percent s ≡ false → has_percent t ≡ false → has_percent (s ++ t) ≡ false
unfolding has_percent
has_percent-append [] t hs ht = ht
has_percent-append (c ∷ s) t hs ht = ground (arith, has_percent-append s t)

has_percent-digits : (fuel n : ℕ) → has_percent (digits fuel n) ≡ false
unfolding has_percent digits
has_percent-digits zero n = refl
has_percent-digits (suc fuel) n =
    let last : has_percent ((b'0' + n % 10) ∷ []) ≡ false = ground arith in
    let high = has_percent-digits fuel (n / 10) in
    elim (Bool-cases (ltb n 10)) [
      | inl e ↦ rw e last
      | inr e ↦ rw e (has_percent-append (digits fuel (n / 10)) ((b'0' + n % 10) ∷ []) high last)
    ]

pub has_percent-decimal : (n : ℕ) → has_percent (decimal n) ≡ false
unfolding decimal
has_percent-decimal n = has_percent-digits 10 n

module _ {W : Type 0} (shell : Bytes → W → W × Status) (filter : Filter shell) where
  -- The state behind the -F of a list of chains, and behind their -X.
  abbrev flush_all : List Chain → W → W
  flush_all [] w = w
  flush_all (c ∷ cs) w = flush_all cs (shell (codes "iptables -t nat -F " ++ chain_name c) w).0

  abbrev delete_all : List Chain → W → W
  delete_all [] w = w
  delete_all (c ∷ cs) w = delete_all cs (shell (codes "iptables -t nat -X " ++ chain_name c) w).0

  -- A chain that is in the list is empty behind it, as is one that was empty before.
  abbrev any_of : List Chain → Chain → Bool
  any_of [] d = false
  any_of (c ∷ cs) d = same c d || any_of cs d

  flush_all-empty :
      (cs : List Chain) (w : W)
      → filter.Linked w
      → filter.Linked (flush_all cs w)
        × ((d : Chain)
            → filter.rules (flush_all cs w) d ≡ (if any_of cs d then [] else filter.rules w d))
  flush_all-empty [] w h = (h, λ d. refl)
  flush_all-empty (c ∷ cs) w h =
      let (linked, one) = filter.flush w c h in
      let (last, rest) = flush_all-empty cs _ linked in
      (last, λ d. rest d ∙ both (same c d) (any_of cs d) (filter.rules w d) (one d))
    where
      both :
          {R : Type 0} (b e : Bool) {r : List R} (s : List R)
          → r ≡ (if b then [] else s)
          → (if e then [] else r) ≡ (if b || e then [] else s)
      both true true s h = refl
      both true false s h = h
      both false true s h = refl
      both false false s h = h

  delete_all-keeps :
      (cs : List Chain) (w : W)
      → filter.Linked w
      → filter.Linked (delete_all cs w)
        × ((d : Chain) → filter.rules (delete_all cs w) d ≡ filter.rules w d)
  delete_all-keeps [] w h = (h, λ d. refl)
  delete_all-keeps (c ∷ cs) w h =
      let (linked, one) = filter.delete w c h in
      let (last, rest) = delete_all-keeps cs _ linked in (last, λ d. rest d ∙ one d)

  every : List Chain
  every = outgoing ∷ prerouting ∷ incoming ∷ postrouting ∷ []

  every-all : (d : Chain) → any_of every d ≡ true
  unfolding every
  every-all outgoing = refl
  every-all prerouting = refl
  every-all incoming = refl
  every-all postrouting = refl

  -- Destroying the rules leaves all four chains empty, whatever they held, and linked.
  pub destroy-empty :
      (w : W)
      → filter.Linked w
      → (w' : W) × (do_commands shell destroy_rule w ≡ some w')
        × filter.Linked w'
        × ((c : Chain) → filter.rules w' c ≡ [])
  unfolding do_commands do_command destroy_rule has_percent every
  destroy-empty w h =
      let (linked, emptied) = flush_all-empty every w h in
      let (last, kept) = delete_all-keeps every (flush_all every w) linked in
      (
        delete_all every (flush_all every w),
        refl,
        last,
        λ d. kept d ∙ emptied d ∙ (let all = every-all d in rw all refl),
      )
