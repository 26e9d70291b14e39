-- ===== src/Http/Decode/Groups.antt =====
-- src/httpd.cpp: what the rounds of `_httpd_decode` make of the groups of a base64 text.
use Prim.Native.Nat.{bit_or}
use faster_config.Base.{
  ℕ, zero, suc, ◌+◌, ◌*◌, ◌/◌, ◌%◌, ◌<◌, [], ◌∷◌, ◌++◌, Bytes, true, ◌==◌, length, get_or, drop,
  All, IsByte, ◌≡◌, refl, ap, ◌∙◌, arith, ==_iff,
}
use faster_config.Http.Escape.RoundTrip.{holds_below, holds_below_at}
use faster_config.Name.{find_char}
use faster_config.Http.Decode.{six2pr, pr2six, prefix_len, decode_group, decode_rounds}

abbrev pub digit : ℕ → ℕ
digit n = get_or six2pr n 0

-- The encoder: groups of three bytes as four digits, the last one filled up by '='.
abbrev pub encode : Bytes → Bytes
encode [] = []
encode (x ∷ []) = digit (x / 4) ∷ digit (x % 4 * 16) ∷ b'=' ∷ b'=' ∷ []
encode (x ∷ y ∷ []) = digit (x / 4) ∷ digit (x % 4 * 16 + y / 16) ∷ digit (y % 16 * 4) ∷ b'=' ∷ []
encode (x ∷ y ∷ z ∷ s) =
    digit (x / 4)
    ∷ digit (x % 4 * 16 + y / 16)
    ∷ digit (y % 16 * 4 + z / 64)
    ∷ digit (z % 64)
    ∷ encode s

digits_table : holds_below 64 (λ n. pr2six (digit n) == n) ≡ true
unfolding holds_below pr2six find_char
digits_table = refl

first_table : holds_below 256 (λ x. bit_or (x / 4 * 4) (x % 4) % 256 == x) ≡ true
unfolding holds_below
first_table = refl

second_table : holds_below 1024 (λ k. bit_or (k / 16 * 16) (k % 16) % 256 == k % 256) ≡ true
unfolding holds_below
second_table = refl

third_table : holds_below 4096 (λ k. bit_or (k / 64 * 64) (k % 64) % 256 == k % 256) ≡ true
unfolding holds_below
third_table = refl

pub pr2six-digit : (n : ℕ) → n < 64 → pr2six (digit n) ≡ n
pr2six-digit n h = let ok = holds_below_at 64 _ n digits_table h in ground (arith, ok)

first_byte : (x q : ℕ) → x < 256 → q ≡ x % 4 → bit_or (x / 4 * 4) q % 256 ≡ x
first_byte x q h e = let ok = holds_below_at 256 _ x first_table h in rw e (ground (arith, ok))

second_byte :
    (h y q : ℕ) → h < 4 → y < 256 → q ≡ y % 16 → bit_or ((h * 16 + y / 16) * 16) q % 256 ≡ y
second_byte h y q hh hy eq =
    let ok = holds_below_at 1024 _ (h * 256 + y) second_table (omega arith) in
    let high : (h * 256 + y) / 16 * 16 ≡ (h * 16 + y / 16) * 16 = omega arith in
    let low : (h * 256 + y) % 16 ≡ q = omega arith in
    let all : (h * 256 + y) % 256 ≡ y = omega arith in
    let e = (==_iff _ _).0 ok in rw (← high, ← low) (e ∙ all)

third_byte : (h z : ℕ) → h < 16 → z < 256 → bit_or ((h * 4 + z / 64) * 64) (z % 64) % 256 ≡ z
third_byte h z hh hz =
    let ok = holds_below_at 4096 _ (h * 256 + z) third_table (omega arith) in
    let high : (h * 256 + z) / 64 * 64 ≡ (h * 4 + z / 64) * 64 = omega arith in
    let low : (h * 256 + z) % 64 ≡ z % 64 = omega arith in
    let all : (h * 256 + z) % 256 ≡ z = omega arith in
    let e = (==_iff _ _).0 ok in rw (← high, ← low) (e ∙ all)

-- How many groups, and how many digits, a text of bytes takes.
abbrev pub groups : Bytes → ℕ
groups [] = 0
groups (x ∷ []) = 1
groups (x ∷ y ∷ []) = 1
groups (x ∷ y ∷ z ∷ s) = suc (groups s)

abbrev pub digit_count : Bytes → ℕ
digit_count [] = 0
digit_count (x ∷ []) = 2
digit_count (x ∷ y ∷ []) = 3
digit_count (x ∷ y ∷ z ∷ s) = suc (suc (suc (suc (digit_count s))))

pub decode_rounds-encode :
    (s t : Bytes) → All IsByte s → (j : Bytes) × (decode_rounds (groups s) (encode s ++ t) ≡ s ++ j)
unfolding decode_rounds decode_group
decode_rounds-encode [] t h = ([], refl)
decode_rounds-encode (x ∷ []) t (hx, _) =
    let a = pr2six-digit (x / 4) (omega arith) in
    let b = pr2six-digit (x % 4 * 16) (omega arith) in
    let first = first_byte x (x % 4 * 16 / 16) hx (omega arith) in
    let byte : bit_or (pr2six (digit (x / 4)) * 4) (pr2six (digit (x % 4 * 16)) / 16) % 256 ≡ x =
      rw (a, b) first in
    let junk : Bytes = drop 1 (decode_rounds 1 (encode (x ∷ []) ++ t)) in
    (junk, ap (λ u. u ∷ junk) byte)
decode_rounds-encode (x ∷ y ∷ []) t (hx, (hy, _)) =
    let a = pr2six-digit (x / 4) (omega arith) in
    let b = pr2six-digit (x % 4 * 16 + y / 16) (omega arith) in
    let c = pr2six-digit (y % 16 * 4) (omega arith) in
    let first = first_byte x ((x % 4 * 16 + y / 16) / 16) hx (omega arith) in
    let second = second_byte (x % 4) y (y % 16 * 4 / 4) (omega arith) hy (omega arith) in
    (drop 2 (decode_rounds 1 (encode (x ∷ y ∷ []) ++ t)), rw (a, b, c) (rw (first, second) refl))
decode_rounds-encode (x ∷ y ∷ z ∷ s) t (hx, (hy, (hz, hs))) =
    let (j, e) = decode_rounds-encode s t hs in
    let a = pr2six-digit (x / 4) (omega arith) in
    let b = pr2six-digit (x % 4 * 16 + y / 16) (omega arith) in
    let c = pr2six-digit (y % 16 * 4 + z / 64) (omega arith) in
    let d = pr2six-digit (z % 64) (omega arith) in
    let first = first_byte x ((x % 4 * 16 + y / 16) / 16) hx (omega arith) in
    let second = second_byte (x % 4) y ((y % 16 * 4 + z / 64) / 4) (omega arith) hy (omega arith) in
    let third = third_byte (y % 16) z (omega arith) hz in
    (j, rw (a, b, c, d) (rw (first, second, third, e) refl))

pub length-decode_rounds : (k : ℕ) (s : Bytes) → length (decode_rounds k s) ≡ k * 3
unfolding decode_rounds decode_group
length-decode_rounds zero s = refl
length-decode_rounds (suc k) s = omega (arith, length-decode_rounds k (drop 4 s))

prefix_len-digit :
    (n k : ℕ) (s : Bytes) → n < 64 → prefix_len s ≡ k → prefix_len (digit n ∷ s) ≡ suc k
unfolding prefix_len
prefix_len-digit n k s h e = let d = pr2six-digit n h in rw (prefix_len, d) (ground (arith, e))

pub prefix_len-encode :
    (s t : Bytes) → All IsByte s → prefix_len (encode s ++ 0 ∷ t) ≡ digit_count s
unfolding prefix_len pr2six find_char
prefix_len-encode [] t h = refl
prefix_len-encode (x ∷ []) t (hx, _) =
    let text : Bytes = encode (x ∷ []) ++ 0 ∷ t in
    let second = prefix_len-digit (x % 4 * 16) 0 (drop 2 text) (omega arith) refl in
    prefix_len-digit (x / 4) 1 (drop 1 text) (omega arith) second
prefix_len-encode (x ∷ y ∷ []) t (hx, (hy, _)) =
    let text : Bytes = encode (x ∷ y ∷ []) ++ 0 ∷ t in
    let third = prefix_len-digit (y % 16 * 4) 0 (drop 3 text) (omega arith) refl in
    let second = prefix_len-digit (x % 4 * 16 + y / 16) 1 (drop 2 text) (omega arith) third in
    prefix_len-digit (x / 4) 2 (drop 1 text) (omega arith) second
prefix_len-encode (x ∷ y ∷ z ∷ s) t (hx, (hy, (hz, hs))) =
    let text : Bytes = encode (x ∷ y ∷ z ∷ s) ++ 0 ∷ t in
    let rest = prefix_len-encode s t hs in
    let fourth = prefix_len-digit (z % 64) _ (drop 4 text) (omega arith) rest in
    let third = prefix_len-digit (y % 16 * 4 + z / 64) _ (drop 3 text) (omega arith) fourth in
    let second = prefix_len-digit (x % 4 * 16 + y / 16) _ (drop 2 text) (omega arith) third in
    prefix_len-digit (x / 4) _ (drop 1 text) (omega arith) second
