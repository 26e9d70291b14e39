-- ===== src/Http/Url/Slashes.antt =====
-- The first two loops of `_httpd_sanitiseUrl`: what they leave holds no "//" and no "/./".
use faster_config.Base.{
  ℕ, zero, suc, [], ◌∷◌, Bytes, Bool, true, false, not, ◌&&◌, ◌==◌, ==_iff, Bool-cases, ◌≡◌, refl,
  sym, ◌∙◌, inl, inr, arith,
}
use faster_config.Http.Url.{slash, period, starts_with, remove_slashes, remove_dots}

-- No occurrence of `p` at any place.
unfoldable pub lacks : Bytes → Bytes → Bool
lacks p [] = not (starts_with p [])
lacks p (c ∷ s) = not (starts_with p (c ∷ s)) && lacks p s

abbrev pub double : Bytes
double = slash ∷ slash ∷ []

abbrev pub here : Bytes
here = slash ∷ period ∷ slash ∷ []

-- The first character, 0 at the end.
abbrev first : Bytes → ℕ
first [] = 0
first (c ∷ s) = c

first-remove_slashes : (s : Bytes) → first (remove_slashes s) ≡ first s
unfolding remove_slashes
first-remove_slashes [] = refl
first-remove_slashes (c ∷ []) = ground arith
first-remove_slashes (c ∷ d ∷ s) = ground (arith, first-remove_slashes (d ∷ s))

starts_slash : (r : Bytes) → starts_with (slash ∷ []) r ≡ (first r == slash)
unfolding starts_with
starts_slash [] = refl
starts_slash (c ∷ r) = ground arith

lacks-double-cons :
    (c : ℕ) (r : Bytes)
    → lacks double (c ∷ r) ≡ (not (c == slash && first r == slash) && lacks double r)
unfolding lacks starts_with
lacks-double-cons c [] = ground arith
lacks-double-cons c (d ∷ r) = ground arith

-- The text after the first loop has no two slashes side by side.
pub lacks-remove_slashes : (s : Bytes) → lacks double (remove_slashes s) ≡ true
unfolding remove_slashes
lacks-remove_slashes [] = unfold lacks starts_with in refl
lacks-remove_slashes (c ∷ s) =
    let r = remove_slashes s in
    ground
      (arith, lacks-remove_slashes s, lacks-double-cons c r, first-remove_slashes s, starts_slash s)

first-remove_dots : (s : Bytes) → first (remove_dots 0 s) ≡ first s
unfolding remove_dots
first-remove_dots [] = refl
first-remove_dots (c ∷ []) = ground arith
first-remove_dots (c ∷ d ∷ s) = ground (arith, first-remove_dots s)

-- The second loop does not bring two slashes together.
pub lacks-double-remove_dots :
    (k : ℕ) (s : Bytes) → lacks double s ≡ true → lacks double (remove_dots k s) ≡ true
unfolding remove_dots
lacks-double-remove_dots k [] h = h
lacks-double-remove_dots (suc k) (c ∷ s) h =
    lacks-double-remove_dots k s (ground (arith, lacks-double-cons c s, h))
lacks-double-remove_dots zero (c ∷ s) h =
    let tail : lacks double s ≡ true = ground (arith, lacks-double-cons c s, h) in
    ground (
      arith,
      h,
      lacks-double-cons c s,
      lacks-double-cons c (remove_dots 0 s),
      first-remove_dots s,
      lacks-double-remove_dots 0 s tail,
      lacks-double-remove_dots 1 s tail,
    )

dot_slash : Bytes → Bool
dot_slash = starts_with (period ∷ slash ∷ [])

dot_slash-cons : (x : ℕ) (r : Bytes) → dot_slash (x ∷ r) ≡ (x == period && first r == slash)
unfolding dot_slash starts_with
dot_slash-cons x [] = ground arith
dot_slash-cons x (y ∷ r) = ground arith

not-dot_slash : (r : Bytes) → first r ≡ slash → dot_slash r ≡ false
not-dot_slash [] h = unfold dot_slash starts_with in refl
not-dot_slash (x ∷ r) h = ground (arith, dot_slash-cons x r)

remove_dots-keep :
    (c : ℕ) (s : Bytes) → (c == slash) ≡ false → remove_dots 0 (c ∷ s) ≡ c ∷ remove_dots 0 s
unfolding remove_dots
remove_dots-keep c s h = rw h

dot_slash-remove_dots : (s : Bytes) → dot_slash (remove_dots 0 s) ≡ dot_slash s
dot_slash-remove_dots [] = unfold remove_dots in refl
dot_slash-remove_dots (c ∷ s) = elim (Bool-cases (c == slash)) [
  | inl e ↦
      let e' = (==_iff c slash).0 e in
      not-dot_slash _ (first-remove_dots (c ∷ s) ∙ e') ∙ sym (not-dot_slash (c ∷ s) e')
  | inr e ↦
      rw (remove_dots-keep c s e)
        (rw (dot_slash-cons c (remove_dots 0 s), dot_slash-cons c s, first-remove_dots s))
]

lacks-here-cons :
    (c : ℕ) (r : Bytes) → lacks here (c ∷ r) ≡ (not (c == slash && dot_slash r) && lacks here r)
unfolding lacks dot_slash starts_with
lacks-here-cons c r = ground arith

-- The text after the second loop has no "/./".
pub lacks-remove_dots : (k : ℕ) (s : Bytes) → lacks here (remove_dots k s) ≡ true
unfolding remove_dots dot_slash
lacks-remove_dots k [] = unfold lacks starts_with in refl
lacks-remove_dots (suc k) (c ∷ s) = lacks-remove_dots k s
lacks-remove_dots zero (c ∷ s) = ground (
  arith,
  lacks-here-cons c (remove_dots 0 s),
  dot_slash-remove_dots s,
  lacks-remove_dots 0 s,
  lacks-remove_dots 1 s,
)
