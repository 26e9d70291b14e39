-- ===== src/Dump.antt =====
-- src/dnsserver.cpp and src/message.cpp: `DnsServer::dump_buffer` and `Message::log_buffer`, which print
-- the bytes of a message.
pub mod Reads
use faster_config.Base.{
  ℕ, ◌+◌, ◌%◌, ◌*◌, List, [], ◌∷◌, ◌++◌, Bytes, codes, ◌==◌, ltb, if◌then◌else◌, get_or, field,
  length,
}
use faster_config.Iptable.{decimal}
use faster_config.Logger.{Log, trace}

-- `hex << setw(2)` of a byte, with '0' to fill.
unfoldable pub hex_byte : ℕ → Bytes
hex_byte c =
    get_or (codes "0123456789abcdef") (field c 4 4) 0
    ∷ get_or (codes "0123456789abcdef") (field c 0 4) 0
    ∷ []

-- `setw(2)` of a number, with '0' to fill.
unfoldable pub two_wide : ℕ → Bytes
unfolding decimal
two_wide n = if ltb n 10 then b'0' ∷ decimal n else decimal n

-- The offset at the start of each line.
unfoldable pub line_start : ℕ → Bytes
unfolding two_wide
line_start i = if i % 10 == 0 then b'\n' ∷ (two_wide i ++ codes ": ") else []

-- The loop from a byte on.
unfoldable pub dump_from : ℕ → Bytes → Bytes
unfolding line_start hex_byte
dump_from i [] = []
dump_from i (c ∷ buffer) = line_start i ++ (hex_byte c ++ b' ' ∷ dump_from (i + 1) buffer)

abbrev pub rule : Bytes
rule = codes "---------------------------------"

-- The text of both, but for its first line in `log_buffer`.
unfoldable pub dump_text : Bytes → Bytes
unfolding dump_from
dump_text buffer =
    codes "size: "
    ++ (decimal (length buffer)
        ++ (codes " bytes" ++ (b'\n' ∷ (rule ++ (dump_from 0 buffer ++ b'\n' ∷ rule)))))

-- `dump_buffer`: what goes to the standard output.
unfoldable pub dump_buffer : Bytes → Bytes
unfolding dump_text
dump_buffer buffer = dump_text buffer ++ b'\n' ∷ []

-- `log_buffer`: what goes to the log.
unfoldable pub log_buffer : Bytes → Log → Log
unfolding dump_text trace
log_buffer buffer log = trace (codes "Message::log_buffer()" ++ b'\n' ∷ dump_text buffer) log
