-- ===== src/Lookup/Client/Answered.antt =====
-- src/DNSLookup.cpp: both `DNSLookup`s on a network that answers the request.
use faster_config.Base.{
  ℕ, suc, ◌+◌, ◌^◌, ◌≤◌, ◌<◌, Option, some, List, [], ◌∷◌, Bytes, true, false, length, All, ◌≡◌,
  refl, ap, ◌∙◌, arith,
}
use faster_config.Name.Labels.{split, IsLabel}
use faster_config.Dns.Types.{htons}
use faster_config.Dns.Service.{query_of}
use faster_config.Lookup.{send_dns_request}
use faster_config.Lookup.Request.{send_dns_request-query_of}
use faster_config.Lookup.Receive.{
  Received, fault, accepted, recvbuf_size, masked_flags, recv_dns_response,
}
use faster_config.Lookup.Receive.Records.{reply_with}
use faster_config.Lookup.Receive.Answers.{recv_dns_response-reply_with}
use faster_config.Lookup.Client.{dns_lookup_core, dns_lookup, dns_lookup_text}

-- A request that is sent is received for.
dns_lookup_core-sent :
    (receive : Bytes → Received) (proc_id : ℕ) (name request : Bytes)
    → send_dns_request proc_id name ≡ some request
    → dns_lookup_core receive true proc_id (some name) ≡ receive request
unfolding dns_lookup_core
dns_lookup_core-sent receive proc_id name request e = rw (dns_lookup_core, e) refl

-- On a network that answers the query of RFC 1035 for the name with the addresses of the name, the
-- lookup of numbers gives these addresses in order, and the lookup of texts, for the same name on the
-- same network, faults. The name has labels of 1 to 63 octets and at most 127 characters, the id and
-- the flags are 16-bit values, the flags those of a response with recursion desired and no error,
-- there is an address at least, each has four bytes, and the reply fits the array of 1024. The fuel is
-- one round for each label, one for a pointer and one more.
pub dns_lookup-answered :
    (fuel proc_id flags : ℕ) (name : Bytes) (ttl : ℕ) (ips : List Bytes) (ds : List (Option Bytes))
    (network : Bytes → List (Option Bytes))
    → network (query_of (htons proc_id) 0x0100 0 0 name 1 [])
      ≡ some (reply_with proc_id flags name ttl ips) ∷ ds
    → proc_id < 2 ^ 16
    → flags < 2 ^ 16
    → masked_flags flags ≡ 0x8100
    → All IsLabel (split name)
    → length name ≤ 127
    → 0 < length ips
    → All (λ ip. length ip ≡ 4) ips
    → length (reply_with proc_id flags name ttl ips) ≤ recvbuf_size
    → (dns_lookup
          (suc (length (split name) + suc fuel))
          4
          true
          false
          network
          true
          proc_id
          (some name)
        ≡ accepted ips [])
      × (dns_lookup_text
            (suc (length (split name) + suc fuel))
            4
            true
            false
            network
            true
            proc_id
            (some name)
          ≡ fault)
unfolding dns_lookup dns_lookup_text
dns_lookup-answered fuel proc_id flags name ttl ips ds network answers hp hf mask labels short
      some_ips four len =
    let k : ℕ = suc (length (split name) + suc fuel) in
    let sent = send_dns_request-query_of proc_id name hp labels (omega (arith, short)) in
    let asked = query_of (htons proc_id) 0x0100 0 0 name 1 [] in
    let got =
      recv_dns_response-reply_with fuel proc_id flags name ttl ips [] ds tt hp hf mask labels short
        some_ips four len in
    (
      dns_lookup_core-sent (λ request. recv_dns_response k 4 true false proc_id (network request))
            proc_id name asked sent
          ∙ ap (λ l. recv_dns_response k 4 true false proc_id l) answers
          ∙ got,
      dns_lookup_core-sent (λ request. fault) proc_id name asked sent,
    )
