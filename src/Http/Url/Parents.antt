-- ===== src/Http/Url/Parents.antt =====
-- The third loop of `_httpd_sanitiseUrl`, and the whole function.
use faster_config.Base.{
  ℕ, zero, suc, ◌≤◌, [], ◌∷◌, ◌++◌, append_assoc, Bytes, true, false, Bool-cases, length, take,
  drop, length-drop, All-append, take-length-append, take_all, ◌≡◌, refl, ap, subst, ◌≢◌, inl, inr,
  arith,
}
use native.Mathlib.Decide.{ℕ_discrete}
use faster_config.Http.Url.{
  slash, period, starts_with, remove_slashes, remove_dots, remove_parents, sanitise_url,
}
use faster_config.Http.Url.Slashes.{
  lacks, double, here, lacks-remove_slashes, lacks-double-remove_dots, lacks-remove_dots,
}
use faster_config.Http.Url.Pushes.{
  above, is_clean, NoSlash, is_clean-push, NoSlash-is_clean, is_clean-push_slash, is_clean-prefix,
  is_clean-lacks,
}

abbrev up : Bytes
up = period ∷ period ∷ slash ∷ []

-- No "//" and no "/./".
abbrev IsPlain : Bytes → Type 0
IsPlain s = (lacks double s ≡ true) × (lacks here s ≡ true)

IsPlain-tail : (c : ℕ) (s : Bytes) → IsPlain (c ∷ s) → IsPlain s
unfolding lacks
IsPlain-tail c s h = ground arith

IsPlain-behind : (a s : Bytes) → IsPlain (a ++ s) → IsPlain s
IsPlain-behind [] s h = h
IsPlain-behind (c ∷ a) s h = IsPlain-behind a s (IsPlain-tail c (a ++ s) h)

-- How the text written, the position `last` and the text left belong together: inside the segment
-- behind the slash at `last`, before any slash, or at the slash behind a sequence just removed.
data State (out : Bytes) (last : ℕ) (s : Bytes) : Type 0 where
  inside :
      (pre seg : Bytes)
      → out ≡ pre ++ (slash ∷ seg)
      → last ≡ length pre
      → NoSlash seg
      → is_clean out ≡ true
      → IsPlain (slash ∷ (seg ++ s))
      → starts_with up (seg ++ s) ≡ false
      → State out last s
  before : NoSlash out → last ≡ 0 → IsPlain s → State out last s
  back :
      (t : Bytes)
      → s ≡ slash ∷ t
      → last ≡ length out
      → is_clean (out ++ slash ∷ []) ≡ true
      → IsPlain s
      → State out last s

NoSlash-clean : (s : Bytes) → NoSlash s → is_clean s ≡ true
NoSlash-clean s h = is_clean-prefix s (slash ∷ []) (NoSlash-is_clean s h)

State-is_clean : (out : Bytes) (last : ℕ) (s : Bytes) → State out last s → is_clean out ≡ true
State-is_clean out last s (inside pre seg o l n c p u) = c
State-is_clean out last s (before n l p) = NoSlash-clean out n
State-is_clean out last s (back t e l c p) = is_clean-prefix out (slash ∷ []) c

-- What an unremoved segment is not.
segment_ne_nil : (seg t : Bytes) → IsPlain (slash ∷ (seg ++ slash ∷ t)) → seg ≢ []
unfolding lacks starts_with
segment_ne_nil [] t p e = ground arith
segment_ne_nil (x ∷ seg) t p e = cc

segment_ne_dot : (seg t : Bytes) → IsPlain (slash ∷ (seg ++ slash ∷ t)) → seg ≢ period ∷ []
unfolding lacks starts_with
segment_ne_dot seg t p e =
    let q : IsPlain (slash ∷ period ∷ slash ∷ t) =
      subst (λ g. IsPlain (slash ∷ (g ++ slash ∷ t))) e p in
    ground arith

segment_ne_up :
    (seg t : Bytes) → starts_with up (seg ++ slash ∷ t) ≡ false → seg ≢ period ∷ period ∷ []
unfolding starts_with
segment_ne_up seg t p e =
    let q : starts_with up (period ∷ period ∷ slash ∷ t) ≡ false =
      subst (λ g. starts_with up (g ++ slash ∷ t) ≡ false) e p in
    ground arith

push_char :
    (out : Bytes) (last c : ℕ) (s : Bytes)
    → c ≢ slash
    → State out last (c ∷ s)
    → State (out ++ c ∷ []) last s
push_char out last c s h (inside pre seg o l n k p u) =
    let joined : seg ++ c ∷ [] ++ s ≡ seg ++ c ∷ s = append_assoc seg (c ∷ []) s in
    inside pre (seg ++ c ∷ []) (rw o (append_assoc pre (slash ∷ seg) (c ∷ []))) l
      (All-append _ seg (c ∷ []) n (h, tt)) (is_clean-push c out h k) (rw joined p) (rw joined u)
push_char out last c s h (before n l p) =
    before (All-append _ out (c ∷ []) n (h, tt)) l (IsPlain-tail c s p)
push_char out last c s h (back t e l k p) = absurd (h (cc))

push_slash :
    (out : Bytes) (last : ℕ) (s : Bytes)
    → starts_with up s ≡ false
    → State out last (slash ∷ s)
    → State (out ++ slash ∷ []) (length out) s
push_slash out last s u (inside pre seg o l n k p v) =
    let whole =
      is_clean-push_slash pre seg n (segment_ne_nil seg s p) (segment_ne_dot seg s p)
        (segment_ne_up seg s v) (rw o at k) in
    let clean : is_clean (out ++ slash ∷ []) ≡ true =
      rw (o, append_assoc pre (slash ∷ seg) (slash ∷ [])) whole in
    inside out [] refl refl tt clean
      (IsPlain-behind seg (slash ∷ s) (IsPlain-tail slash (seg ++ slash ∷ s) p)) u
push_slash out last s u (before n l p) = inside out [] refl refl tt (NoSlash-is_clean out n) p u
push_slash out last s u (back t e l k p) = inside out [] refl refl tt k p u

-- Behind "/../" the text is cut at the last slash.
cut_back :
    (out : Bytes) (last : ℕ) (t : Bytes)
    → State out last (slash ∷ period ∷ period ∷ slash ∷ t)
    → State (take last out) last (slash ∷ t)
cut_back out last t (inside pre seg o l n k p v) =
    let cut : take last out ≡ pre = rw (l, o) (take-length-append pre (slash ∷ seg)) in
    let clean : is_clean (pre ++ slash ∷ []) ≡ true =
      is_clean-prefix (pre ++ slash ∷ []) seg
        (rw (append_assoc pre (slash ∷ []) seg) (rw o at k)) in
    back t refl (rw cut l) (rw cut clean)
      (rest (IsPlain-behind (slash ∷ seg) (slash ∷ period ∷ period ∷ slash ∷ t) p))
  where
    rest : IsPlain (slash ∷ period ∷ period ∷ slash ∷ t) → IsPlain (slash ∷ t)
    rest = IsPlain-behind (slash ∷ period ∷ period ∷ []) (slash ∷ t)
cut_back out last t (before n l p) =
    let cut : take last out ≡ [] = rw l in
    back t refl (rw cut l) (rw cut (NoSlash-is_clean [] tt))
      (IsPlain-behind (slash ∷ period ∷ period ∷ []) (slash ∷ t) p)
cut_back out last t (back t' e l k p) =
    let cut : take last out ≡ out = rw l (take_all (length out) out (omega arith)) in
    back t refl (rw cut l) (rw cut k) (IsPlain-behind (slash ∷ period ∷ period ∷ []) (slash ∷ t) p)

up-starts : (s : Bytes) → starts_with up s ≡ true → s ≡ period ∷ period ∷ slash ∷ drop 3 s
unfolding starts_with
up-starts [] h = ground arith
up-starts (a ∷ []) h = ground arith
up-starts (a ∷ b ∷ []) h = ground arith
up-starts (a ∷ b ∷ c ∷ s) h = ground arith

remove_parents-char :
    (out : Bytes) (last c : ℕ) (s : Bytes)
    → c ≢ slash
    → remove_parents 0 out last (c ∷ s) ≡ remove_parents 0 (out ++ c ∷ []) last s
unfolding remove_parents
remove_parents-char out last c s h = ground arith

remove_parents-slash :
    (out : Bytes) (last : ℕ) (s : Bytes)
    → starts_with up s ≡ false
    → remove_parents 0 out last (slash ∷ s) ≡ remove_parents 0 (out ++ slash ∷ []) (length out) s
unfolding remove_parents
remove_parents-slash out last s h = rw h

remove_parents-up :
    (out : Bytes) (last : ℕ) (t : Bytes)
    → remove_parents 0 out last (slash ∷ period ∷ period ∷ slash ∷ t)
      ≡ remove_parents 0 (take last out) last (slash ∷ t)
unfolding remove_parents starts_with
remove_parents-up out last t = refl

remove_parents-is_clean :
    (n : ℕ) (out : Bytes) (last : ℕ) (s : Bytes)
    → length s ≤ n
    → State out last s
    → is_clean (remove_parents 0 out last s) ≡ true
remove_parents-is_clean n out last [] h st = unfold remove_parents in State-is_clean out last [] st
remove_parents-is_clean zero out last (c ∷ s) h st = absurd (omega arith)
remove_parents-is_clean (suc n) out last (c ∷ s) h st = elim (ℕ_discrete c slash) [
  | no d ↦
      rw (remove_parents-char out last c s d) (
        remove_parents-is_clean n (out ++ c ∷ []) last s (omega arith)
          (push_char out last c s d st))
  | yes e ↦
      let st' : State out last (slash ∷ s) = subst (λ x. State out last (x ∷ s)) e st in
      elim (Bool-cases (starts_with up s)) [
        | inl u ↦
            let t = drop 3 s in
            let split : s ≡ period ∷ period ∷ slash ∷ t = up-starts s u in
            let shorter : length (slash ∷ t) ≤ n =
              omega (arith, length-drop 3 s, ap length split) in
            rw (e, split)
              (rw (remove_parents-up out last t) (
                remove_parents-is_clean n (take last out) last (slash ∷ t) shorter
                  (cut_back out last t (subst (λ x. State out last (slash ∷ x)) split st'))))
        | inr u ↦ rw e (
            rw (remove_parents-slash out last s u) (
              remove_parents-is_clean n (out ++ slash ∷ []) (length out) s (omega arith)
                (push_slash out last s u st')))
      ]
]

-- For every text, what `_httpd_sanitiseUrl` leaves has "//", "/./" and "/../" at no place.
pub sanitise_url-lacks :
    (url : Bytes)
    → (lacks double (sanitise_url url) ≡ true)
      × (lacks here (sanitise_url url) ≡ true)
      × (lacks above (sanitise_url url) ≡ true)
unfolding sanitise_url
sanitise_url-lacks url =
    let s = remove_dots 0 (remove_slashes url) in
    let plain : IsPlain s = (
      lacks-double-remove_dots 0 (remove_slashes url) (lacks-remove_slashes url),
      lacks-remove_dots 0 (remove_slashes url),
    ) in
    is_clean-lacks (remove_parents 0 [] 0 s)
      (remove_parents-is_clean (length s) [] 0 s (omega arith) (before tt refl plain))
