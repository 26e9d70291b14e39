-- ===== src/Lookup/Receive.antt =====
-- src/DNSLookup.cpp: `RecvDNSResponse`. An address is the bytes of a `ULONG` in memory, whose size is
-- a parameter; a position in the datagram is what is left of `recvbuf` from it on.
pub mod Answers
pub mod Records
pub mod Spoofed
use faster_config.Base.{
  ℕ, zero, suc, ◌+◌, ◌-◌, ◌*◌, ◌^◌, Option, none, some, List, [], ◌∷◌, ◌++◌, Bytes, Bool, true,
  false, not, ◌&&◌, ◌||◌, ◌==◌, ltb, if◌then◌else◌, field, length, get_or, take, drop, replicate,
  memcpy,
}
use faster_config.Wire.{get2byte}
use faster_config.Http.Query.{c_string}
use faster_config.Lookup.{Decoding, overrun, underflow, running, failed, decoded, decode_dot_str}

-- How it ends: with a read or a write outside its arrays, not at all, with FALSE, or with TRUE and the
-- two lists. Without a datagram that fits it goes on waiting.
pub data Received : Type 0 where
  fault endless refused waiting : Received
  accepted : List Bytes → List Bytes → Received

abbrev pub recvbuf_size : ℕ
recvbuf_size = 1024

-- The size of `szDotName`.
abbrev pub dot_name_size : ℕ
dot_name_size = 128

abbrev pub word_at : Bytes → ℕ → ℕ
word_at buf i = get_or buf i 0 * 256 + get_or buf (i + 1) 0

-- `ntohs(usFlags) & 0xfb7f`: the bits 10 and 7 are taken away.
abbrev pub masked_flags : ℕ → ℕ
masked_flags v = v - field v 10 1 * 2 ^ 10 - field v 7 1 * 2 ^ 7

-- The test of a header; the id is compared as the machine has it, the low byte first.
unfoldable pub is_reply : ℕ → Bytes → Bool
is_reply proc_id buf =
    get_or buf 1 0 * 256 + get_or buf 0 0 == proc_id
    && masked_flags (word_at buf 2) == 0x8100
    && ltb 0 (word_at buf 6)

-- A decoding that did not succeed.
abbrev pub ended : Decoding → Received
ended overrun = fault
ended underflow = fault
ended running = endless
ended failed = refused
ended (decoded text n) = waiting

-- What the loops make of a decoded name and its length.
abbrev pub with_name : Decoding → (Bytes → ℕ → Received) → Received
with_name (decoded text n) next = next text n
with_name other next = ended other

module _ (fuel ulong_size : ℕ) (wants_ips wants_cnames : Bool) where
  -- The loop over the answers, with the lists so far.
  unfoldable pub read_answers : ℕ → Bytes → Bytes → List Bytes → List Bytes → Received
  unfolding get2byte decode_dot_str
  read_answers zero recvbuf data_pos ips cnames = accepted ips cnames
  read_answers (suc count) recvbuf data_pos ips cnames =
      with_name (decode_dot_str fuel (some recvbuf) dot_name_size data_pos) (λ owner len.
        let fixed : Bytes = drop len data_pos in
        let answer_type : ℕ = word_at fixed 0 in
        let data_len : ℕ = word_at fixed 8 in
        let value : Bytes = drop 10 fixed in
        let next = read_answers count recvbuf (drop data_len value) in
        if ltb (length fixed) 10 || ltb (length fixed) (4 + ulong_size)
        then fault
        else if answer_type == 1 && wants_ips
        then if ltb (length value) ulong_size
          then fault
          else next (ips ++ take ulong_size value ∷ []) cnames
        else if answer_type == 5 && wants_cnames
        then with_name (decode_dot_str fuel (some recvbuf) dot_name_size value)
            (λ cname cname_len. next ips (cnames ++ c_string cname ∷ []))
        else next ips cnames)

  -- The loop over the questions, then the one over the answers.
  unfoldable pub read_questions : ℕ → ℕ → Bytes → Bytes → Received
  unfolding read_answers
  read_questions zero answer_count recvbuf data_pos =
      read_answers answer_count recvbuf data_pos [] []
  read_questions (suc count) answer_count recvbuf data_pos =
      with_name (decode_dot_str fuel none dot_name_size data_pos)
        (λ name len. read_questions count answer_count recvbuf (drop (len + 4) data_pos))

  -- The loop over the datagrams; `none` is an error of `recvfrom`, which is not tested.
  unfoldable pub receive_loop : ℕ → Bytes → List (Option Bytes) → Received
  unfolding is_reply read_questions
  receive_loop proc_id recvbuf [] = waiting
  receive_loop proc_id recvbuf (datagram ∷ rest) =
      let filled : Bytes = elim datagram [
        | none ↦ recvbuf
        | some d ↦ memcpy recvbuf 0 (take recvbuf_size d)
      ] in
      let later = receive_loop proc_id filled rest in
      if is_reply proc_id filled
      then read_questions (word_at filled 4) (word_at filled 6) filled (drop 12 filled)
      else later

  -- `RecvDNSResponse`.
  unfoldable pub recv_dns_response : ℕ → List (Option Bytes) → Received
  unfolding receive_loop
  recv_dns_response proc_id datagrams = receive_loop proc_id (replicate recvbuf_size 0) datagrams
