-- ===== src/Http/Acl/Mask.antt =====
-- The mask of `_isInCidrBlock` keeps the leading bits of an address.
use faster_config.Base.{
  leb, leb→le, Bool-cases, inl, inr, ℕ, zero, suc, ◌+◌, ◌-◌, ◌*◌, ◌/◌, ◌%◌, ◌^◌, ◌≤◌, ◌<◌, min,
  true, false, ◌==◌, ltb, if◌then◌else◌, ◌≡◌, refl, sym, ap, ◌∙◌, ◌↔◌, arith,
}
use Prim.Native.Nat.{digits, bit_and, bit_and-bitwise}
use native.Mathlib.Nat.{
  pow-suc, div-div-eq-div-mul, mod-eq_of_lt, div-lt_iff_lt-mul, mul-div_cancel,
}
use faster_config.Http.Acl.{word, ones, mask, is_in_cidr_block}

-- `bit_and` digit by digit, for at most `k` digits of the first number.
abbrev meet : ℕ → ℕ → ℕ → ℕ
meet k x y = digits (λ b. zero) min k x y

-- A digit more makes no difference once there is room for all of them.
meet-suc : (k x y : ℕ) → x ≤ k → meet (suc k) x y ≡ meet k x y
meet-suc zero zero y le = refl
meet-suc zero (suc x) y le = absurd (omega (arith, le))
meet-suc (suc k) zero y le = refl
meet-suc (suc k) (suc x) y le =
    let halved : suc x / 2 ≤ k = omega (arith, le) in
    ap (λ t. t * 2 + min (suc x % 2) (y % 2)) (meet-suc k (suc x / 2) (y / 2) halved)

meet-room : (k x y : ℕ) → x ≤ k → meet k x y ≡ bit_and x y
meet-room zero zero y le = sym (bit_and-bitwise zero y)
meet-room zero (suc x) y le = absurd (omega (arith, le))
meet-room (suc k) x y le = elim (Bool-cases (leb x k)) [
  | inl small ↦ let less = leb→le x k small in meet-suc k x y less ∙ meet-room k x y less
  | inr big ↦
      let full : x ≡ suc k = ground (arith, le, big) in rw full (sym (bit_and-bitwise (suc k) y))
]

bit_and_digit : (x y : ℕ) → bit_and x y ≡ bit_and (x / 2) (y / 2) * 2 + min (x % 2) (y % 2)
bit_and_digit zero y =
    let none_left = bit_and-bitwise zero y in
    let none_right = bit_and-bitwise zero (y / 2) in omega (arith, none_left, none_right)
bit_and_digit (suc x) y =
    let halved : suc x / 2 ≤ x = omega arith in
    bit_and-bitwise (suc x) y
    ∙ ap (λ t. t * 2 + min (suc x % 2) (y % 2)) (meet-room x (suc x / 2) (y / 2) halved)

-- A mask that ends in a 0, and one that ends in a 1.
bit_and_even : (a m : ℕ) → bit_and a (m * 2) ≡ bit_and (a / 2) m * 2
bit_and_even a m =
    let h : m * 2 / 2 ≡ m = omega arith in
    omega (arith, bit_and_digit a (m * 2), ap (bit_and (a / 2)) h)

bit_and_odd : (a m : ℕ) → bit_and a (m * 2 + 1) ≡ bit_and (a / 2) m * 2 + a % 2
bit_and_odd a m =
    let h : (m * 2 + 1) / 2 ≡ m = omega arith in
    omega (arith, bit_and_digit a (m * 2 + 1), ap (bit_and (a / 2)) h)

pow2_split : (k n m : ℕ) → k + n ≡ m → 2 ^ k * 2 ^ n ≡ 2 ^ m
pow2_split zero n m e = let e' : n ≡ m = omega arith in rw e' (omega arith)
pow2_split (suc k) n zero e = absurd (omega arith)
pow2_split (suc k) n (suc m) e =
    rw (pow-suc 2 k, pow-suc 2 m) (grind (arith, pow2_split k n m (omega arith)))

pow2_pos : (k : ℕ) → 0 < 2 ^ k
pow2_pos zero = omega arith
pow2_pos (suc k) = rw (pow-suc 2 k) (omega (arith, pow2_pos k))

pow2_le : (n : ℕ) → n ≤ 32 → 2 ^ n ≤ word
pow2_le n h =
    let e = pow2_split n (32 - n) 32 (omega arith) in let p = pow2_pos (32 - n) in grind arith

ones_eq : (n : ℕ) → n ≤ 32 → ones n + 1 ≡ 2 ^ n
unfolding ones
ones_eq zero h = refl
ones_eq (suc n) h =
    let e = pow-suc 2 n in let le = pow2_le (suc n) h in omega (arith, ones_eq n (omega arith))

ones-suc : (n : ℕ) → suc n ≤ 32 → ones (suc n) ≡ ones n * 2 + 1
ones-suc n h = let e = pow-suc 2 n in omega (arith, ones_eq n (omega arith), ones_eq (suc n) h)

-- `n` ones keep any number below 2 ^ n.
ones_keep : (n a : ℕ) → n ≤ 32 → a < 2 ^ n → bit_and a (ones n) ≡ a
ones_keep zero a h lt = let z : a ≡ 0 = omega arith in rw z (unfold ones in refl)
ones_keep (suc n) a h lt =
    let e = pow-suc 2 n in
    let half : a / 2 < 2 ^ n = omega arith in
    rw (ones-suc n h)
      (omega (arith, bit_and_odd a (ones n), ones_keep n (a / 2) (omega arith) half))

div_div_pow : (a k : ℕ) → a / 2 / 2 ^ k ≡ a / 2 ^ suc k
div_div_pow a k = div-div-eq-div-mul a 2 (2 ^ k) ∙ ap (λ m. a / m) (rw (pow-suc 2 k) (omega arith))

-- A mask shifted by `k` meets the bits from `k` on.
bit_and_shift : (k a m : ℕ) → bit_and a (m * 2 ^ k) ≡ bit_and (a / 2 ^ k) m * 2 ^ k
bit_and_shift zero a m =
    let e : m * 1 ≡ m = omega arith in let d : a / 1 ≡ a = omega arith in rw (e, d) (omega arith)
bit_and_shift (suc k) a m =
    let e : m * 2 ^ suc k ≡ m * 2 ^ k * 2 = regroup m in
    rw e (
      bit_and_even a (m * 2 ^ k)
      ∙ ap (λ t. t * 2) (bit_and_shift k (a / 2) m)
      ∙ ap (λ q. bit_and q m * 2 ^ k * 2) (div_div_pow a k)
      ∙ sym (regroup (bit_and (a / 2 ^ suc k) m)))
  where
    regroup : (x : ℕ) → x * 2 ^ suc k ≡ x * 2 ^ k * 2
    regroup x = rw (pow-suc 2 k) (grind arith)

mask-ones : (n : ℕ) → n ≤ 32 → mask n ≡ ones n * 2 ^ (32 - n)
unfolding mask
mask-ones n h =
    let e = pow2_split n (32 - n) 32 (omega arith) in
    let p = pow2_pos (32 - n) in
    let below : ones n * 2 ^ (32 - n) < word = grind (arith, ones_eq n h) in mod-eq_of_lt below

-- The leading `n` bits of an address.
abbrev pub leading : ℕ → ℕ → ℕ
leading n a = a / 2 ^ (32 - n)

leading-lt : (n a : ℕ) → n ≤ 32 → a < word → leading n a < 2 ^ n
leading-lt n a h lt =
    let e = pow2_split n (32 - n) 32 (omega arith) in
    let under : a < 2 ^ n * 2 ^ (32 - n) = rw e lt in
    (div-lt_iff_lt-mul (pow2_pos (32 - n))).1 under

bit_and-mask : (n a : ℕ) → n ≤ 32 → a < word → bit_and a (mask n) ≡ leading n a * 2 ^ (32 - n)
bit_and-mask n a h lt = rw (
  mask-ones n h,
  bit_and_shift (32 - n) a (ones n),
  ones_keep n (leading n a) h (leading-lt n a h lt),
)

cancel : (x y p : ℕ) → 0 < p → x * p ≡ y * p → x ≡ y
cancel x y p h e = sym (mul-div_cancel x h) ∙ ap (λ t. t / p) e ∙ mul-div_cancel y h

block_test :
    (l1 l2 x y p : ℕ)
    → 0 < p
    → ((if ltb l2 l1 then false else x * p == y * p) ≡ true) ↔ ((l1 ≤ l2) × (x ≡ y))
block_test l1 l2 x y p h = (
  λ e. let (o, q) = parts e in (o, cancel x y p h q),
  λ e. let q : x * p ≡ y * p = ap (λ t. t * p) e.1 in let o = e.0 in ground arith,
)
  where
    parts : (if ltb l2 l1 then false else x * p == y * p) ≡ true → (l1 ≤ l2) × (x * p ≡ y * p)
    parts e = ground arith

-- An address lies in a block exactly when its own prefix is at least as long as the block's and the
-- two agree on the leading bits that the block fixes. The block's prefix has at most 32 bits, and both
-- addresses are 32-bit values.
pub is_in_cidr_block_iff :
    (addr1 len1 addr2 len2 : ℕ)
    → len1 ≤ 32
    → addr1 < word
    → addr2 < word
    → (is_in_cidr_block addr1 len1 addr2 len2 ≡ true)
      ↔ ((len1 ≤ len2) × (leading len1 addr1 ≡ leading len1 addr2))
unfolding is_in_cidr_block
is_in_cidr_block_iff addr1 len1 addr2 len2 h h1 h2 =
    rw (bit_and-mask len1 addr1 h h1, bit_and-mask len1 addr2 h h2)
      (block_test len1 len2 (leading len1 addr1) (leading len1 addr2) (2 ^ (32 - len1))
        (pow2_pos (32 - len1)))
