-- ===== src/Http/Url/Pushes.antt =====
-- Texts with no "//", "/./" or "/../", and what may be written behind one.
use faster_config.Base.{
  ℕ, [], ◌∷◌, ◌++◌, Bytes, Bool, true, false, not, ◌&&◌, ◌||◌, All, ◌≡◌, refl, ◌∙◌, ◌≢◌, arith,
}
use faster_config.Http.Url.{slash, period, starts_with}
use faster_config.Http.Url.Slashes.{lacks, double, here}

abbrev pub above : Bytes
above = slash ∷ period ∷ period ∷ slash ∷ []

bad_at : Bytes → Bool
bad_at s = starts_with double s || starts_with here s || starts_with above s

pub is_clean : Bytes → Bool
is_clean [] = true
is_clean (c ∷ s) = not (bad_at (c ∷ s)) && is_clean s

abbrev pub NoSlash : Bytes → Type 0
NoSlash = All (λ c. c ≢ slash)

bad_at-push :
    (x c : ℕ) (pre seg : Bytes)
    → bad_at (c ∷ (pre ++ (slash ∷ (seg ++ x ∷ [])))) ≡ bad_at (c ∷ (pre ++ (slash ∷ seg)))
unfolding bad_at starts_with
bad_at-push x c [] seg = ground arith
bad_at-push x c (a ∷ []) seg = ground arith
bad_at-push x c (a ∷ b ∷ []) seg = ground arith
bad_at-push x c (a ∷ b ∷ d ∷ pre) seg = ground arith

bad_at-push_char : (x : ℕ) (s : Bytes) → x ≢ slash → bad_at s ≡ false → bad_at (s ++ x ∷ []) ≡ false
unfolding bad_at starts_with
bad_at-push_char x [] h e = ground arith
bad_at-push_char x (a ∷ []) h e = ground arith
bad_at-push_char x (a ∷ b ∷ []) h e = ground arith
bad_at-push_char x (a ∷ b ∷ d ∷ []) h e = ground arith
bad_at-push_char x (a ∷ b ∷ d ∷ f ∷ s) h e = ground arith

not-bad_at : (c : ℕ) (s : Bytes) → c ≢ slash → bad_at (c ∷ s) ≡ false
unfolding bad_at starts_with
not-bad_at c s h = ground arith

bad_at-segment :
    (seg : Bytes)
    → NoSlash seg
    → seg ≢ []
    → seg ≢ period ∷ []
    → seg ≢ period ∷ period ∷ []
    → bad_at (slash ∷ (seg ++ slash ∷ [])) ≡ false
unfolding bad_at starts_with
bad_at-segment [] n a b c = absurd (a refl)
bad_at-segment (x ∷ []) n a b c = ground arith
bad_at-segment (x ∷ y ∷ []) n a b c = ground arith
bad_at-segment (x ∷ y ∷ z ∷ seg) n a b c = ground arith

bad_at-parts :
    (s : Bytes)
    → bad_at s ≡ false
    → (starts_with double s ≡ false) × (starts_with here s ≡ false) × (starts_with above s ≡ false)
unfolding bad_at
bad_at-parts s h = ground arith

is_clean-cons :
    (c : ℕ) (s : Bytes) → is_clean (c ∷ s) ≡ true → (bad_at (c ∷ s) ≡ false) × (is_clean s ≡ true)
unfolding is_clean
is_clean-cons c s h = ground arith

cons-is_clean :
    (c : ℕ) (s : Bytes) → bad_at (c ∷ s) ≡ false → is_clean s ≡ true → is_clean (c ∷ s) ≡ true
unfolding is_clean
cons-is_clean c s h e = ground arith

-- A character other than a slash may always be written.
pub is_clean-push :
    (x : ℕ) (s : Bytes) → x ≢ slash → is_clean s ≡ true → is_clean (s ++ x ∷ []) ≡ true
is_clean-push x [] h e = cons-is_clean x [] (not-bad_at x [] h) e
is_clean-push x (a ∷ s) h e =
    let (b, r) = is_clean-cons a s e in
    cons-is_clean a (s ++ x ∷ []) (bad_at-push_char x (a ∷ s) h b) (is_clean-push x s h r)

pub NoSlash-is_clean : (seg : Bytes) → NoSlash seg → is_clean (seg ++ slash ∷ []) ≡ true
NoSlash-is_clean [] h = unfold is_clean bad_at starts_with in refl
NoSlash-is_clean (a ∷ s) h =
    cons-is_clean a (s ++ slash ∷ []) (not-bad_at a _ h.0) (NoSlash-is_clean s h.1)

-- A slash may be written behind a segment that is not empty, "." or "..".
pub is_clean-push_slash :
    (pre seg : Bytes)
    → NoSlash seg
    → seg ≢ []
    → seg ≢ period ∷ []
    → seg ≢ period ∷ period ∷ []
    → is_clean (pre ++ (slash ∷ seg)) ≡ true
    → is_clean (pre ++ (slash ∷ (seg ++ slash ∷ []))) ≡ true
is_clean-push_slash [] seg n a b c e =
    cons-is_clean slash (seg ++ slash ∷ []) (bad_at-segment seg n a b c) (NoSlash-is_clean seg n)
is_clean-push_slash (x ∷ pre) seg n a b c e =
    let (h, r) = is_clean-cons x (pre ++ (slash ∷ seg)) e in
    cons-is_clean x _ (bad_at-push slash x pre seg ∙ h) (is_clean-push_slash pre seg n a b c r)

starts_with-append : (p s t : Bytes) → starts_with p s ≡ true → starts_with p (s ++ t) ≡ true
unfolding starts_with
starts_with-append [] s t h = refl
starts_with-append (p ∷ ps) [] t h = cc
starts_with-append (p ∷ ps) (c ∷ s) t h = ground (arith, starts_with-append ps s t)

bad_at-append : (s t : Bytes) → bad_at (s ++ t) ≡ false → bad_at s ≡ false
unfolding bad_at
bad_at-append s t h = ground (
  arith,
  starts_with-append double s t,
  starts_with-append here s t,
  starts_with-append above s t,
)

pub is_clean-prefix : (s t : Bytes) → is_clean (s ++ t) ≡ true → is_clean s ≡ true
is_clean-prefix [] t h = unfold is_clean in refl
is_clean-prefix (a ∷ s) t h =
    let (b, r) = is_clean-cons a (s ++ t) h in
    cons-is_clean a s (bad_at-append (a ∷ s) t b) (is_clean-prefix s t r)

-- A clean text has none of the three sequences at any place.
pub is_clean-lacks :
    (s : Bytes)
    → is_clean s ≡ true
    → (lacks double s ≡ true) × (lacks here s ≡ true) × (lacks above s ≡ true)
unfolding lacks starts_with
is_clean-lacks [] h = (refl, refl, refl)
is_clean-lacks (c ∷ s) h =
    let (b, r) = is_clean-cons c s h in
    let ih = is_clean-lacks s r in let parts = bad_at-parts (c ∷ s) b in ground (arith, ih, parts)
