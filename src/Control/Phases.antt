-- ===== src/Control/Phases.antt =====
-- The loop of `Application::run` over spells of passes that read the same.
use faster_config.Base.{
  ℕ, zero, suc, Bool, true, false, not, List, [], ◌∷◌, ◌++◌, append_assoc, ◌≡◌, refl, sym, ap, ◌∙◌,
  map, replicate,
}
use faster_config.Control.{
  Reading, locked, Flags, Effect, destroy_rule, redirect_dns, redirect_http, start, reset, act,
  pass, run,
}

-- The passes by what they read only.
abbrev run_bits : List Bool → Flags → Flags × List Effect
run_bits [] f = (f, [])
run_bits (l ∷ ls) f = ((run_bits ls (pass l f).0).0, (pass l f).1 ++ (run_bits ls (pass l f).0).1)

run-bits : (rs : List Reading) (f : Flags) → run rs f ≡ run_bits (map locked rs) f
unfolding run
run-bits [] f = refl
run-bits (r ∷ rs) f = let rest = run-bits rs (pass (locked r) f).0 in rw rest

-- The flags once the loop has come to rest.
abbrev pub settled : Bool → Flags
settled true = record { is_redirected = true; is_destroied = false }
settled false = record { is_redirected = false; is_destroied = true }

-- The calls that are due when the loop comes to read `l`.
abbrev due : Bool → List Effect
due true = redirect_dns ∷ redirect_http ∷ []
due false = destroy_rule ∷ []

pass-settled : (l : Bool) → pass l (settled l) ≡ (settled l, [])
unfolding pass reset act
pass-settled true = refl
pass-settled false = refl

run_bits-settled : (l : Bool) (n : ℕ) → run_bits (replicate n l) (settled l) ≡ (settled l, [])
run_bits-settled l zero = refl
run_bits-settled l (suc n) =
    let one = pass-settled l in let rest = run_bits-settled l n in rw (one, rest)

-- Two passes that read the same bring any flags to rest.
pass-pass : (l : Bool) (f : Flags) → (pass l (pass l f).0).0 ≡ settled l
unfolding pass reset act
pass-pass l f = flags l f.is_redirected f.is_destroied
  where
    flags :
        (l r d : Bool)
        → (pass l (pass l (record { is_redirected = r; is_destroied = d })).0).0 ≡ settled l
    flags true true true = refl
    flags true true false = refl
    flags true false true = refl
    flags true false false = refl
    flags false true true = refl
    flags false true false = refl
    flags false false true = refl
    flags false false false = refl

-- Coming from rest, the first of the two passes makes the calls and the second none.
pass-other : (l : Bool) → run_bits (l ∷ l ∷ []) (settled (not l)) ≡ (settled l, due l)
unfolding pass reset act
pass-other true = refl
pass-other false = refl

run_bits-append :
    (ls ms : List Bool) (f : Flags)
    → run_bits (ls ++ ms) f
      ≡ ((run_bits ms (run_bits ls f).0).0, (run_bits ls f).1 ++ (run_bits ms (run_bits ls f).0).1)
run_bits-append [] ms f = refl
run_bits-append (l ∷ ls) ms f =
    let rest = run_bits-append ls ms (pass l f).0 in
    let joined =
      append_assoc (pass l f).1 (run_bits ls (pass l f).0).1
        (run_bits ms (run_bits ls (pass l f).0).0).1 in
    rw rest (ap (λ es. ((run_bits ms (run_bits ls (pass l f).0).0).0, es)) (sym joined))

-- Whatever the flags were, two readings in a row that agree leave the flags of that reading.
pub run-settles :
    (rs : List Reading) (r s : Reading) (f : Flags)
    → locked r ≡ locked s
    → (run (rs ++ r ∷ s ∷ []) f).0 ≡ settled (locked s)
unfolding run
run-settles [] r s f h = rw h (pass-pass (locked s) f)
run-settles (q ∷ rs) r s f h = run-settles rs r s (pass (locked q) f).0 h

-- Spells of the same reading, each of two passes and some more, the readings in turn.
abbrev pub spells : Bool → List ℕ → List Bool
spells l [] = []
spells l (n ∷ ns) = l ∷ l ∷ replicate n l ++ spells (not l) ns

-- The calls of one round for each spell.
abbrev pub rounds : Bool → List ℕ → List Effect
rounds l [] = []
rounds l (n ∷ ns) = due l ++ rounds (not l) ns

run_bits-two :
    (l : Bool) (ms : List Bool) (f g : Flags) (es : List Effect)
    → run_bits (l ∷ l ∷ []) f ≡ (g, es)
    → (run_bits (l ∷ l ∷ ms) f).1 ≡ es ++ (run_bits ms g).1
run_bits-two l ms f g es h =
    let joined = run_bits-append (l ∷ l ∷ []) ms f in
    ap (λ p. p.1) joined ∙ ap (λ (p : Flags × List Effect). p.1 ++ (run_bits ms p.0).1) h

run_bits-spells :
    (l : Bool) (ns : List ℕ) → (run_bits (spells l ns) (settled (not l))).1 ≡ rounds l ns
run_bits-spells l [] = refl
run_bits-spells l (n ∷ ns) =
    let more = run_bits-append (replicate n l) (spells (not l) ns) (settled l) in
    let quiet = run_bits-settled l n in
    let rest = run_bits-spells (not l) ns in
    run_bits-two l (replicate n l ++ spells (not l) ns) (settled (not l)) (settled l) (due l)
      (pass-other l)
    ∙ ap (λ es. due l ++ es)
        (ap (λ p. p.1) more
          ∙ ap (λ (p : Flags × List Effect). p.1 ++ (run_bits (spells (not l) ns) p.0).1) quiet
          ∙ again l rest)
  where
    again :
        (l : Bool)
        → (run_bits (spells (not l) ns) (settled (not (not l)))).1 ≡ rounds (not l) ns
        → (run_bits (spells (not l) ns) (settled l)).1 ≡ rounds (not l) ns
    again true h = h
    again false h = h

-- From the start of the loop, when the readings are spells that are locked and unlocked in turn,
-- the first one locked, and every spell has two passes or more, each spell has the calls of its
-- state exactly once.
pub run-rounds :
    (rs : List Reading) (ns : List ℕ)
    → map locked rs ≡ spells true ns
    → (run rs start).1 ≡ rounds true ns
run-rounds rs ns h =
    let bits = run-bits rs start in
    ap (λ p. p.1) bits ∙ ap (λ ls. (run_bits ls start).1) h ∙ run_bits-spells true ns

-- When the loop reads one locked pass at its start and then unlocked ones only, the rules are made
-- and never destroyed, and the flags are those of the start.
pub run-brief :
    (rs : List Reading) (n : ℕ)
    → map locked rs ≡ true ∷ replicate (suc n) false
    → run rs start ≡ (start, redirect_dns ∷ redirect_http ∷ [])
unfolding pass reset act
run-brief rs n h =
    let bits = run-bits rs start in
    let rest = run_bits-settled false n in bits ∙ ap (λ ls. run_bits ls start) h ∙ rw rest

-- When the loop reads two locked passes at its start, one unlocked and then locked ones only, the
-- unlocked one takes the rules away and no later locked pass brings them back, although the flags
-- are those of the redirection.
pub run-gap :
    (rs : List Reading) (n : ℕ)
    → map locked rs ≡ true ∷ true ∷ false ∷ replicate (suc n) true
    → run rs start ≡ (settled true, redirect_dns ∷ redirect_http ∷ destroy_rule ∷ [])
unfolding pass reset act
run-gap rs n h =
    let bits = run-bits rs start in
    let rest = run_bits-settled true n in bits ∙ ap (λ ls. run_bits ls start) h ∙ rw rest
