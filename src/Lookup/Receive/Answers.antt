-- ===== src/Lookup/Receive/Answers.antt =====
-- src/DNSLookup.cpp: the addresses that `RecvDNSResponse` takes from a reply as RFC 1035 has it.
use faster_config.Base.{
  ℕ, suc, ◌+◌, ◌*◌, ◌/◌, ◌%◌, ◌^◌, ◌≤◌, ◌<◌, Option, none, some, List, [], ◌∷◌, ◌++◌, append_assoc,
  Bytes, true, false, ◌==◌, ltb, field, length, take, drop, replicate, memcpy, All, memcpy-zero,
  length-append, length-replicate, length-memcpy, length-take, take_all, drop-append, ◌≡◌, refl,
  sym, subst, ap, ◌∙◌, arith,
}
use faster_config.Name.Labels.{split, wire_name, IsLabel}
use faster_config.Lookup.{decode_dot_str}
use faster_config.Lookup.RoundTrip.{decode_labels-split}
use faster_config.Lookup.Receive.{
  accepted, dot_name_size, recvbuf_size, is_reply, masked_flags, word_at, read_answers,
  read_questions, receive_loop, recv_dns_response,
}
use faster_config.Lookup.Receive.Records.{records, reply_with, read_answers-records}

-- The one question.
read_questions-name :
    (k fuel count : ℕ) (name recvbuf rest : Bytes)
    → k ≡ length (split name) + suc fuel
    → All IsLabel (split name)
    → length name + 1 ≤ dot_name_size
    → read_questions k 4 true false 1 count recvbuf
        (wire_name (split name) ++ (0 ∷ 1 ∷ 0 ∷ 1 ∷ rest))
      ≡ read_answers k 4 true false count recvbuf rest [] []
unfolding read_questions decode_dot_str
read_questions-name k fuel count name recvbuf rest e labels room =
    let w : Bytes = wire_name (split name) in
    let fixed : Bytes = 0 ∷ 1 ∷ 0 ∷ 1 ∷ [] in
    let read =
      decode_labels-split name k fuel none dot_name_size [] 0 (fixed ++ rest) e labels
        (omega (arith, room)) (omega (arith, room)) in
    let long = length-append w fixed in
    let behind : drop (0 + length w + 4) (w ++ (fixed ++ rest)) ≡ rest =
      ap (drop (0 + length w + 4)) (sym (append_assoc w fixed rest))
      ∙ drop-append (0 + length w + 4) (w ++ fixed) rest (omega (arith, long)) in
    rw (read_questions, read) (ap (λ d. read_answers k 4 true false count recvbuf d [] []) behind)

-- The datagram in the array, with what stands behind it.
filled-reply :
    (buf d : Bytes)
    → length buf ≡ recvbuf_size
    → length d ≤ recvbuf_size
    → (stale : Bytes) × (memcpy buf 0 (take recvbuf_size d) ≡ d ++ stale)
filled-reply buf d len h =
    let whole = take_all recvbuf_size d h in
    (drop (length d) buf, ap (memcpy buf 0) whole ∙ memcpy-zero buf d (omega (arith, h, len)))

is_reply-reply_with :
    (proc_id flags : ℕ) (name : Bytes) (ttl : ℕ) (ips : List Bytes) (stale : Bytes)
    → proc_id < 2 ^ 16
    → flags < 2 ^ 16
    → masked_flags flags ≡ 0x8100
    → 0 < length ips
    → is_reply proc_id (reply_with proc_id flags name ttl ips ++ stale) ≡ true
unfolding is_reply
is_reply-reply_with proc_id flags name ttl ips stale hp hf mask some_ips =
    let id : proc_id / 256 * 256 + proc_id % 256 ≡ proc_id = omega arith in
    let word : field flags 8 8 * 256 + field flags 0 8 ≡ flags = omega arith in
    let count : ltb 0 (0 * 256 + length ips) ≡ true = ground (arith, some_ips) in
    let same : (proc_id == proc_id) ≡ true = ground arith in
    let plain : (masked_flags flags == 0x8100) ≡ true = ground (arith, mask) in
    rw (is_reply, id) (rw word (rw (same, plain, count) refl))

receive_loop-reply :
    (fuel proc_id : ℕ) (buf d filled : Bytes) (ds : List (Option Bytes))
    → memcpy buf 0 (take recvbuf_size d) ≡ filled
    → is_reply proc_id filled ≡ true
    → receive_loop fuel 4 true false proc_id buf (some d ∷ ds)
      ≡ read_questions fuel 4 true false
          (word_at filled 4)
          (word_at filled 6)
          filled
          (drop 12 filled)
unfolding receive_loop
receive_loop-reply fuel proc_id buf d filled ds e test =
    subst
      (λ b.
        receive_loop fuel 4 true false proc_id buf (some d ∷ ds)
        ≡ read_questions fuel 4 true false (word_at b 4) (word_at b 6) b (drop 12 b))
      e
      (let here : is_reply proc_id (memcpy buf 0 (take recvbuf_size d)) ≡ true =
          ap (is_reply proc_id) e ∙ test in
        rw here refl)

-- What the socket may give before: an error, or a datagram with a whole header that is not a reply to
-- the request.
abbrev pub IsOther : ℕ → Option Bytes → Type 0
IsOther proc_id none = Unit
IsOther proc_id (some d) = (12 ≤ length d) × (is_reply proc_id d ≡ false)

-- The test of a header depends on the datagram alone.
is_reply-filled :
    (proc_id : ℕ) (buf d : Bytes)
    → length buf ≡ recvbuf_size
    → 12 ≤ length d
    → is_reply proc_id d ≡ false
    → is_reply proc_id (memcpy buf 0 (take recvbuf_size d)) ≡ false
unfolding is_reply
is_reply-filled proc_id buf [] len h e = absurd (omega (arith, h))
is_reply-filled proc_id buf (a ∷ []) len h e = absurd (omega (arith, h))
is_reply-filled proc_id buf (a ∷ b ∷ []) len h e = absurd (omega (arith, h))
is_reply-filled proc_id buf (a ∷ b ∷ c ∷ []) len h e = absurd (omega (arith, h))
is_reply-filled proc_id buf (a ∷ b ∷ c ∷ d ∷ []) len h e = absurd (omega (arith, h))
is_reply-filled proc_id buf (a ∷ b ∷ c ∷ d ∷ f ∷ []) len h e = absurd (omega (arith, h))
is_reply-filled proc_id buf (a ∷ b ∷ c ∷ d ∷ f ∷ g ∷ []) len h e = absurd (omega (arith, h))
is_reply-filled proc_id buf (a ∷ b ∷ c ∷ d ∷ f ∷ g ∷ i ∷ []) len h e = absurd (omega (arith, h))
is_reply-filled proc_id buf (a ∷ b ∷ c ∷ d ∷ f ∷ g ∷ i ∷ j ∷ rest) len h e =
    let whole : Bytes = a ∷ b ∷ c ∷ d ∷ f ∷ g ∷ i ∷ j ∷ rest in
    let src : Bytes = take recvbuf_size whole in
    let front = memcpy-zero buf src (omega (arith, length-take recvbuf_size whole, len)) in
    rw front e

-- The reply, whatever the array holds when it arrives.
receive_loop-reply_with :
    (fuel proc_id flags : ℕ) (name : Bytes) (ttl : ℕ) (ips : List Bytes) (ds : List (Option Bytes))
    (buf : Bytes)
    → length buf ≡ recvbuf_size
    → proc_id < 2 ^ 16
    → flags < 2 ^ 16
    → masked_flags flags ≡ 0x8100
    → All IsLabel (split name)
    → length name ≤ 127
    → 0 < length ips
    → All (λ ip. length ip ≡ 4) ips
    → length (reply_with proc_id flags name ttl ips) ≤ recvbuf_size
    → receive_loop
        (suc (length (split name) + suc fuel))
        4
        true
        false
        proc_id
        buf
        (some (reply_with proc_id flags name ttl ips) ∷ ds)
      ≡ accepted ips []
unfolding receive_loop
receive_loop-reply_with fuel proc_id flags name ttl ips ds buf buf_len hp hf mask labels short
      some_ips four len =
    let d : Bytes = reply_with proc_id flags name ttl ips in
    let k : ℕ = suc (length (split name) + suc fuel) in
    let w : Bytes = wire_name (split name) in
    let (stale, filled) = filled-reply buf d buf_len len in
    let test = is_reply-reply_with proc_id flags name ttl ips stale hp hf mask some_ips in
    let behind : drop 12 (d ++ stale) ≡ w ++ (0 ∷ 1 ∷ 0 ∷ 1 ∷ (records ttl ips ++ stale)) =
      append_assoc w (0 ∷ 1 ∷ 0 ∷ 1 ∷ records ttl ips) stale in
    let enough : k ≡ length (split name) + suc (suc fuel) = omega arith in
    let asked =
      read_questions-name k (suc fuel) (length ips) name (d ++ stale) (records ttl ips ++ stale)
        enough labels (omega (arith, short)) in
    let answered =
      read_answers-records fuel name (d ++ stale) (0 ∷ 1 ∷ 0 ∷ 1 ∷ (records ttl ips ++ stale)) stale
        ttl ips [] labels (omega (arith, short)) behind four in
    let count : 0 * 256 + length ips ≡ length ips = omega arith in
    receive_loop-reply k proc_id buf d (d ++ stale) ds filled test
    ∙ ap (λ n. read_questions k 4 true false 1 n (d ++ stale) (drop 12 (d ++ stale))) count
    ∙ ap (read_questions k 4 true false 1 (length ips) (d ++ stale)) behind
    ∙ asked
    ∙ answered

receive_loop-others :
    (k proc_id : ℕ) (buf : Bytes) (before ds : List (Option Bytes))
    → length buf ≡ recvbuf_size
    → is_reply proc_id buf ≡ false
    → All (IsOther proc_id) before
    → (buf' : Bytes) × (length buf' ≡ recvbuf_size)
      × (receive_loop k 4 true false proc_id buf (before ++ ds)
          ≡ receive_loop k 4 true false proc_id buf' ds)
unfolding receive_loop
receive_loop-others k proc_id buf [] ds len none_yet h = (buf, len, refl)
receive_loop-others k proc_id buf (none ∷ before) ds len none_yet (_, h) =
    let (buf', len', e) = receive_loop-others k proc_id buf before ds len none_yet h in
    (buf', len', rw none_yet e)
receive_loop-others k proc_id buf (some d ∷ before) ds len none_yet ((long, other), h) =
    let filled : Bytes = memcpy buf 0 (take recvbuf_size d) in
    let test = is_reply-filled proc_id buf d len long other in
    let (buf', len', e) =
      receive_loop-others k proc_id filled before ds
        (length-memcpy buf 0 (take recvbuf_size d) ∙ len) test h in
    (buf', len', rw test e)

-- A reply as RFC 1035 has it, from a server that recurses on demand, is accepted with the
-- addresses of all its records, in order, whatever comes after it, and behind errors and datagrams
-- that are no replies to the request, each with a whole header. The flags are those the client
-- asks for: a response, with recursion desired, and no error; AA and RA are free. The name has
-- labels of 1 to 63 octets and at most 127 characters, there is an address at least, each has four
-- bytes, as a `ULONG` has on the device, and the reply fits the array. The fuel is one round for
-- each label and one for the pointer of a record.
pub recv_dns_response-reply_with :
    (fuel proc_id flags : ℕ) (name : Bytes) (ttl : ℕ) (ips : List Bytes)
    (before ds : List (Option Bytes))
    → All (IsOther proc_id) before
    → proc_id < 2 ^ 16
    → flags < 2 ^ 16
    → masked_flags flags ≡ 0x8100
    → All IsLabel (split name)
    → length name ≤ 127
    → 0 < length ips
    → All (λ ip. length ip ≡ 4) ips
    → length (reply_with proc_id flags name ttl ips) ≤ recvbuf_size
    → recv_dns_response
        (suc (length (split name) + suc fuel))
        4
        true
        false
        proc_id
        (before ++ some (reply_with proc_id flags name ttl ips) ∷ ds)
      ≡ accepted ips []
unfolding recv_dns_response is_reply
recv_dns_response-reply_with fuel proc_id flags name ttl ips before ds others hp hf mask labels
      short some_ips four len =
    let zeros : Bytes = replicate recvbuf_size 0 in
    let zeros_len = length-replicate {A = ℕ} recvbuf_size 0 in
    let (buf, buf_len, passed) =
      receive_loop-others (suc (length (split name) + suc fuel)) proc_id zeros before
        (some (reply_with proc_id flags name ttl ips) ∷ ds) zeros_len (ground arith) others in
    passed
    ∙ receive_loop-reply_with fuel proc_id flags name ttl ips ds buf buf_len hp hf mask labels short
        some_ips four len
