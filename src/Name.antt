-- ===== src/Name.antt =====
-- src/dnsserver.cpp and src/response.cpp: a domain name in dots becomes the labels of the wire,
-- each behind its length. `std::string` is its bytes, `find` an optional position.
pub mod Labels
pub mod Encode
use faster_config.Base.{
  ℕ, zero, suc, ◌+◌, ◌-◌, ◌%◌, Option, none, some, [], ◌∷◌, ◌++◌, Bytes, ◌==◌, if◌then◌else◌, take,
  drop, length,
}
use mathlib.Core.Option

abbrev pub dot : ℕ
dot = b'.'

-- The first position of `c`, as `find` and `strchr` give it.
unfoldable pub find_char : ℕ → Bytes → Option ℕ
find_char c [] = none
find_char c (x ∷ s) = if x == c then some 0 else Option.map suc (find_char c s)

-- `s.find(c, start)`.
unfoldable pub find : Bytes → ℕ → ℕ → Option ℕ
unfolding find_char
find s c start = Option.map (λ i. start + i) (find_char c (drop start s))

-- The `while` loop: `end` is the next dot. `none` is fuel that ran out. Every octet that is written
-- advances the buffer, and the counter behind `len`, by one.
unfoldable pub write_labels : ℕ → Bytes → ℕ → Bytes → Option (Bytes × ℕ)
write_labels zero domain start buffer = none
write_labels (suc fuel) domain start buffer = elim (find domain dot start) [
  | none ↦ some (buffer, start)
  | some end ↦
      write_labels fuel domain (end + 1)
        (buffer ++ (end - start) % 256 ∷ take (end - start) (drop start domain))
]

-- What follows the loop: the last label and the octet of the root.
unfoldable pub write_last : Bytes → Bytes × ℕ → Bytes
write_last domain (buffer, start) =
    buffer ++ (length domain - start) % 256 ∷ (drop start domain ++ 0 ∷ [])

-- `DnsServer::encode_domain`; `*len` is the number of octets written.
unfoldable pub encode_domain : Bytes → Bytes → Bytes × ℕ
unfolding write_labels write_last
encode_domain buffer domain = elim (write_labels (length domain + 1) domain 0 []) [
  | none ↦ (buffer, 0)
  | some state ↦ let written = write_last domain state in (buffer ++ written, length written)
]

-- `Response::code_domain`.
unfoldable pub code_domain : Bytes → Bytes → Bytes
unfolding write_labels write_last
code_domain buffer domain = elim (write_labels (length domain + 1) domain 0 buffer) [
  | none ↦ buffer
  | some state ↦ write_last domain state
]
