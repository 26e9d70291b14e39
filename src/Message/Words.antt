-- ===== src/Message/Words.antt =====
-- What a word is after it went through a buffer.
use faster_config.Base.{
  ℕ, ◌+◌, ◌*◌, ◌/◌, ◌%◌, ◌^◌, ◌<◌, Option, some, [], ◌++◌, Bytes, ◌>>=◌, ◌≡◌, arith,
}
use faster_config.Message.{masked, get16bits, put16bits, put32bits, flags_of}

-- A 16-bit value is read back as it was written.
pub get16bits-put16bits :
    (value : ℕ) (rest : Bytes)
    → value < 2 ^ 16
    → get16bits (put16bits [] value ++ rest) ≡ some (value, rest)
unfolding get16bits put16bits
get16bits-put16bits value rest h =
    let e : masked value 8 8 / 2 ^ 8 * 2 ^ 8 + masked value 0 8 ≡ value = omega arith in rw e

-- Two 16-bit reads.
abbrev pub get32bits : Bytes → Option (ℕ × Bytes)
get32bits s = do (high, s1) ← get16bits s; (low, s2) ← get16bits s1; some (high * 2 ^ 16 + low, s2)

-- A 32-bit value that `put32bits` writes is read back without its low 16 bits, whatever they are.
pub get32bits-put32bits :
    (value : ℕ) (rest : Bytes)
    → value < 2 ^ 32
    → get32bits (put32bits [] value ++ rest) ≡ some (value / 2 ^ 16 * 2 ^ 16, rest)
unfolding get16bits put32bits
get32bits-put32bits value rest h =
    let e : (masked value 24 8 / 2 ^ 24 * 2 ^ 8 + masked value 16 8 / 2 ^ 16) * 2 ^ 16
          + (masked value 8 8 / 2 ^ 16 * 2 ^ 8 + masked value 0 8 / 2 ^ 16)
        ≡ value / 2 ^ 16 * 2 ^ 16 =
      omega arith in
    rw e

-- Every flag that `decode_hdr` takes from a header is 0.
pub flags_of_zero :
    (flags : ℕ) → flags_of flags ≡ record { qr = 0; opcode = 0; aa = 0; tc = 0; rd = 0; ra = 0 }
unfolding flags_of
flags_of_zero flags =
    let q : masked flags 15 1 % 2 ^ 1 ≡ 0 = omega arith in
    let o : masked flags 11 4 % 2 ^ 4 ≡ 0 = omega arith in
    let a : masked flags 10 1 % 2 ^ 1 ≡ 0 = omega arith in
    let t : masked flags 9 1 % 2 ^ 1 ≡ 0 = omega arith in
    let r : masked flags 8 1 % 2 ^ 1 ≡ 0 = omega arith in rw (q, o, a, t, r)
