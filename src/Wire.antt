-- ===== src/Wire.antt =====
-- src/dnsserver.cpp and src/message.cpp: the helpers that move 16 and 32 bits through a buffer.
-- A `char*&` that is written through is the bytes written so far; one that is read through is the
-- bytes that are left, and `none` is a read past their end.
use faster_config.Base.{ℕ, ◌+◌, ◌*◌, ◌^◌, Option, none, some, [], ◌∷◌, ◌++◌, Bytes, field}

-- `DnsServer::get2byte`.
unfoldable pub get2byte : Bytes → Option (ℕ × Bytes)
get2byte (a ∷ b ∷ rest) = some (a * 2 ^ 8 + b, rest)
get2byte _ = none

-- `DnsServer::put2byte`.
unfoldable pub put2byte : Bytes → ℕ → Bytes
put2byte buffer value = buffer ++ field value 8 8 ∷ field value 0 8 ∷ []
