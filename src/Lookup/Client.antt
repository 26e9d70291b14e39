-- ===== src/Lookup/Client.antt =====
-- src/DNSLookup.cpp: `DNSLookupCore` and the two `DNSLookup`s. The network is a function from the
-- request to the datagrams that arrive behind it.
pub mod Answered
use faster_config.Base.{
  ℕ, ◌+◌, ◌%◌, ◌^◌, Option, none, some, List, Bytes, Bool, true, false, if◌then◌else◌, length,
}
use faster_config.Lookup.{
  Encoding, too_small, copy_overrun, unwritten, encoded, encode_dot_str, send_dns_request,
}
use faster_config.Lookup.Receive.{Received, fault, refused, accepted, recv_dns_response}

-- A request that was not sent: `EncodeDotStr` refused the name, wrote behind its copy or wrote nothing
-- for `strlen` to read, or the name was written past the packet.
abbrev pub unsent : Encoding → Received
unsent too_small = refused
unsent copy_overrun = fault
unsent unwritten = fault
unsent (encoded bytes) = fault

-- `DNSLookupCore`, with what is made of a request that was sent; `none` is a null name.
unfoldable pub dns_lookup_core : (Bytes → Received) → Bool → ℕ → Option Bytes → Received
unfolding send_dns_request encode_dot_str
dns_lookup_core receive is_init_ok proc_id none = refused
dns_lookup_core receive is_init_ok proc_id (some name) =
    let asked : Received = elim (send_dns_request proc_id name) [
      | none ↦ unsent (encode_dot_str name (length name % 2 ^ 16 + 2))
      | some request ↦ receive request
    ] in
    if is_init_ok then asked else refused

module _ (fuel ulong_size : ℕ) (wants_ips wants_cnames : Bool)
    (network : Bytes → List (Option Bytes)) where
  -- The `DNSLookup` that gives addresses as numbers.
  unfoldable pub dns_lookup : Bool → ℕ → Option Bytes → Received
  unfolding dns_lookup_core recv_dns_response
  dns_lookup is_init_ok proc_id domain_name =
      dns_lookup_core
        (λ request.
          recv_dns_response fuel ulong_size wants_ips wants_cnames proc_id (network request))
        is_init_ok proc_id domain_name

  -- What the other one does behind a lookup that gave TRUE without a list: it clears the null list.
  abbrev pub clear_null : Received → Received
  clear_null (accepted ips cnames) = fault
  clear_null r = r

  -- The `DNSLookup` that gives addresses as texts. With a list, `pveculIPList` points to a vector
  -- whose block has ended when `RecvDNSResponse` clears it.
  unfoldable pub dns_lookup_text : Bool → ℕ → Option Bytes → Received
  unfolding dns_lookup_core recv_dns_response
  dns_lookup_text is_init_ok proc_id domain_name =
      if wants_ips
      then dns_lookup_core (λ request. fault) is_init_ok proc_id domain_name
      else clear_null (
          dns_lookup_core
            (λ request.
              recv_dns_response fuel ulong_size false wants_cnames proc_id (network request))
            is_init_ok proc_id domain_name)
