-- ===== src/Http/Arp/Words.antt =====
-- src/httpd.cpp: what the conversions of `arp_get` read of words with blanks between them.
use faster_config.Base.{
  ℕ, zero, suc, ◌≤◌, some, [], ◌∷◌, ◌++◌, Bytes, Bool, true, false, not, length, ◌≡◌, ◌≢◌, refl,
  sym, ap, ◌∙◌, subst, arith,
}
use faster_config.Http.Request.{span}
use faster_config.Http.Request.Text.{all, span-append}
use faster_config.Http.Acl.{is_space}
use faster_config.Http.Arp.{
  not_space, non_empty, behind, is_ip, is_mac, skip_space, span_most, scan_set, skip_word,
  skip_tail,
}

abbrev pub blanks : ℕ → Bytes → Bytes
blanks zero t = b' ' ∷ t
blanks (suc n) t = b' ' ∷ blanks n t

-- A word that `%s` reads.
abbrev pub IsWord : Bytes → Type 0
IsWord w = (w ≢ []) × (all not_space w ≡ true)

pub skip_space-blanks : (n : ℕ) (t : Bytes) → skip_space (blanks n t) ≡ skip_space t
unfolding span skip_space
skip_space-blanks zero t = refl
skip_space-blanks (suc n) t = skip_space-blanks n t

-- A blank, which ends each set and each word.
blanks-shape : (n : ℕ) (t : Bytes) → (u : Bytes) × (blanks n t ≡ b' ' ∷ u)
blanks-shape zero t = (t, refl)
blanks-shape (suc n) t = (blanks n t, refl)

-- A text of characters that are no blanks, and what stands behind it.
skip_space-word : (c : ℕ) (t : Bytes) → not (is_space c) ≡ true → skip_space (c ∷ t) ≡ c ∷ t
unfolding span skip_space
skip_space-word c t h =
    let blank : is_space c ≡ false = ground (arith, h) in rw (skip_space, blank) refl

span_most-append :
    (n : ℕ) (p : ℕ → Bool) (s : Bytes) (c : ℕ) (t : Bytes)
    → all p s ≡ true
    → length s ≤ n
    → p c ≡ false
    → span_most n p (s ++ c ∷ t) ≡ (s, c ∷ t)
unfolding all span_most
span_most-append zero p [] c t hs len hc = refl
span_most-append (suc n) p [] c t hs len hc = rw (span_most, hc)
span_most-append zero p (d ∷ s) c t hs len hc = absurd (omega (arith, len))
span_most-append (suc n) p (d ∷ s) c t hs len hc =
    let here : p d ≡ true = ground (arith, hs) in
    let later = span_most-append n p s c t (ground (arith, hs)) (omega (arith, len)) hc in
    rw (here, later)

scan_set-append :
    (n : ℕ) (p : ℕ → Bool) (s : Bytes) (c : ℕ) (t : Bytes)
    → s ≢ []
    → all p s ≡ true
    → length s ≤ n
    → p c ≡ false
    → scan_set n p (s ++ c ∷ t) ≡ some (s, c ∷ t)
unfolding scan_set
scan_set-append n p [] c t ne hs len hc = absurd (ne refl)
scan_set-append n p (d ∷ s) c t ne hs len hc =
    ap non_empty (span_most-append n p (d ∷ s) c t hs len hc)

-- `%*s` takes a word with the blanks before it.
skip_word-append :
    (pad w t : Bytes) (c : ℕ)
    → skip_space pad ≡ skip_space (w ++ c ∷ t)
    → IsWord w
    → is_space c ≡ true
    → skip_word pad ≡ some (c ∷ t)
unfolding skip_word all
skip_word-append pad [] t c e (ne, h) hc = absurd (ne refl)
skip_word-append pad (d ∷ w) t c e (ne, h) hc =
    let start = skip_space-word d (w ++ c ∷ t) (ground (arith, h)) in
    let stop : not (is_space c) ≡ false = rw hc refl in
    let word = span-append not_space (d ∷ w) c t h stop in
    ap (λ s. behind (non_empty (span not_space s))) (e ∙ start)
    ∙ ap (λ s. behind (non_empty s)) word

-- With blanks behind.
pub scan_set-blanks :
    (n : ℕ) (p : ℕ → Bool) (s : Bytes) (k : ℕ) (t : Bytes)
    → s ≢ []
    → all p s ≡ true
    → length s ≤ n
    → p b' ' ≡ false
    → scan_set n p (s ++ blanks k t) ≡ some (s, blanks k t)
scan_set-blanks n p s k t ne hs len hc =
    let (u, e) = blanks-shape k t in
    subst (λ b. scan_set n p (s ++ b) ≡ some (s, b)) (sym e)
      (scan_set-append n p s b' ' u ne hs len hc)

pub skip_word-blanks :
    (j k : ℕ) (w t : Bytes) → IsWord w → skip_word (blanks j (w ++ blanks k t)) ≡ some (blanks k t)
skip_word-blanks j k w t h =
    let (u, e) = blanks-shape k t in
    subst (λ b. skip_word (blanks j (w ++ b)) ≡ some b) (sym e)
      (skip_word-append (blanks j (w ++ b' ' ∷ u)) w u b' ' (skip_space-blanks j (w ++ b' ' ∷ u)) h
        refl)

-- A text of a set without blanks is not skipped.
pub skip_space-set :
    (p : ℕ → Bool) (s t : Bytes)
    → s ≢ []
    → all p s ≡ true
    → ((c : ℕ) → p c ≡ true → not (is_space c) ≡ true)
    → skip_space (s ++ t) ≡ s ++ t
unfolding all
skip_space-set p [] t ne hs h = absurd (ne refl)
skip_space-set p (c ∷ s) t ne hs h = skip_space-word c (s ++ t) (h c (ground (arith, hs)))

pub is_ip-word : (c : ℕ) → is_ip c ≡ true → not (is_space c) ≡ true
is_ip-word c h = ground (arith, h)

pub is_mac-word : (c : ℕ) → is_mac c ≡ true → not (is_space c) ≡ true
is_mac-word c h = ground (arith, h)

-- The last word of a row, with the end of its line.
skip_word-end :
    (j : ℕ) (w t : Bytes) → IsWord w → skip_word (blanks j (w ++ b'\n' ∷ t)) ≡ some (b'\n' ∷ t)
skip_word-end j w t h =
    skip_word-append (blanks j (w ++ b'\n' ∷ t)) w t b'\n' (skip_space-blanks j (w ++ b'\n' ∷ t)) h
      refl

pub skip_tail-words :
    (j k : ℕ) (v w t : Bytes)
    → IsWord v
    → IsWord w
    → skip_tail (blanks j (v ++ blanks k (w ++ b'\n' ∷ t))) ≡ b'\n' ∷ t
unfolding skip_tail
skip_tail-words j k v w t hv hw =
    rw (skip_tail, skip_word-blanks j k v (w ++ b'\n' ∷ t) hv) (rw (skip_word-end k w t hw) refl)
