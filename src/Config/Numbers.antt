-- ===== src/Config/Numbers.antt =====
-- src/application.cpp: `%d` reads the numbers that `%d` prints.
use faster_config.Base.{
  ◌≤◌, length, length-append, All, All-append, lt→ltb, false, refl, ◌∙◌, ◌==◌, ℕ, zero, suc, ◌+◌,
  ◌-◌, ◌*◌, ◌/◌, ◌%◌, ◌^◌, ◌<◌, some, [], ◌∷◌, ◌++◌, append_assoc, Bytes, ltb, tests, true,
  Bool-cases, inl, inr, ◌≡◌, ap, arith,
}
use faster_config.Http.Acl.{is_digit, digits_from}
use faster_config.Iptable.{digits, decimal}
use faster_config.Config.{newline, scan_int}

ten : (n fuel : ℕ) → n < 10 ^ suc fuel → n / 10 < 10 ^ fuel
ten n fuel h = omega arith

-- The digits of a number, read in front of other text.
digits_from-digits :
    (fuel n : ℕ) (s : Bytes) → n < 10 ^ fuel → digits_from 0 (digits fuel n ++ s) ≡ digits_from n s
unfolding digits_from digits
digits_from-digits zero n s h = let z : n ≡ 0 = omega arith in rw z
digits_from-digits (suc fuel) n s h =
    let d : is_digit (b'0' + n % 10) ≡ true = ground arith in
    elim (Bool-cases (ltb n 10)) [
      | inl e ↦
          let v : 0 * 10 + (b'0' + n % 10 - b'0') ≡ n = omega (tests, e) in
          rw (e, digits_from) (rw d (ap (λ k. digits_from k s) v))
      | inr e ↦
          let ih = digits_from-digits fuel (n / 10) ((b'0' + n % 10) ∷ s) (ten n fuel h) in
          let v : n / 10 * 10 + (b'0' + n % 10 - b'0') ≡ n = omega arith in
          rw (e, append_assoc, ih) (rw (d, digits_from) (ap (λ k. digits_from k s) v))
    ]

pub digits-head :
    (fuel n : ℕ) → (c : ℕ) × (s : Bytes) × (digits (suc fuel) n ≡ c ∷ s) × (is_digit c ≡ true)
unfolding digits
digits-head zero n =
    let d : is_digit (b'0' + n % 10) ≡ true = ground arith in
    elim (Bool-cases (ltb n 10)) [
      | inl e ↦ (b'0' + n % 10, [], rw e, d)
      | inr e ↦ (b'0' + n % 10, [], rw e, d)
    ]
digits-head (suc fuel) n =
    let d : is_digit (b'0' + n % 10) ≡ true = ground arith in
    let (c, s, h, high) = digits-head fuel (n / 10) in
    elim (Bool-cases (ltb n 10)) [
      | inl e ↦ (b'0' + n % 10, [], rw e, d)
      | inr e ↦ (c, s ++ (b'0' + n % 10) ∷ [], rw (e, h), high)
    ]

digits_from-end : (n : ℕ) → digits_from n (newline ∷ []) ≡ n
unfolding digits_from
digits_from-end n = refl

-- A number that an `int` holds is read back from its digits.
pub scan_int-decimal : (n : ℕ) → n < 2 ^ 31 → scan_int (decimal n ++ newline ∷ []) ≡ some n
unfolding scan_int decimal
scan_int-decimal n h =
    let (c, s, e, d) = digits-head 9 n in
    let all : digits_from 0 (c ∷ (s ++ newline ∷ [])) ≡ n =
      rw e at (digits_from-digits 10 n (newline ∷ []) (omega arith)) ∙ digits_from-end n in
    let minus : (c == b'-') ≡ false = ground (arith, d) in
    let plus : (c == b'+') ≡ false = ground (arith, d) in
    let room = lt→ltb _ _ h in rw (e, scan_int) (rw minus (rw plus (rw d (rw all (rw room refl)))))

-- The digits of a number: how many there are, and that none is a blank or a zero byte.
pub length-digits : (fuel n : ℕ) → length (digits fuel n) ≤ fuel
unfolding digits
length-digits zero n = omega arith
length-digits (suc fuel) n =
    let k = length-digits fuel (n / 10) in
    let long = length-append (digits fuel (n / 10)) ((b'0' + n % 10) ∷ []) in
    elim (Bool-cases (ltb n 10)) [
      | inl one ↦ rw (digits, one) (omega arith)
      | inr more ↦ rw (digits, more) (omega (arith, k, long))
    ]

pub All-digits :
    (P : ℕ → Type 0) (fuel n : ℕ) → ((k : ℕ) → k < 10 → P (b'0' + k)) → All P (digits fuel n)
unfolding digits
All-digits P zero n h = tt
All-digits P (suc fuel) n h =
    let here = h (n % 10) (omega arith) in
    elim (Bool-cases (ltb n 10)) [
      | inl one ↦ rw (digits, one) (here, tt)
      | inr more ↦
          rw (digits, more)
            (All-append P (digits fuel (n / 10)) ((b'0' + n % 10) ∷ [])
              (All-digits P fuel (n / 10) h) (here, tt))
    ]
