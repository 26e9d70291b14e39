-- ===== src/Http/Accept.antt =====
-- src/httpd.cpp: `httpdGetConnection`, and the loop of `Httpd::start` that hands connections to worker
-- threads. What `select`, `malloc`, `accept` and `inet_ntoa` give is the input.
pub mod Permitted
use faster_config.Base.{
  ℕ, Option, none, some, List, [], ◌∷◌, ◌++◌, Bytes, Bool, true, false, not, ◌==◌, if◌then◌else◌,
  take,
}
use faster_config.Http.Acl.{AclRule, acl_deny, check_acl}
use faster_config.Http.Request.{new_request}
use faster_config.Http.Response.{Response, System}
use faster_config.Http.Serve.{Server, send403}

-- The results of `select`: below 0, 0, and above.
pub data Select : Type 0 where
  failed timed_out readable : Select

-- One call of `httpdGetConnection`: what the calls of `select` give, whether the request can be
-- allocated, and the client's address, `none` for a null pointer.
pub record Call : Type 0 where
  pub selects : List Select
  pub allocated : Bool
  pub ipaddr : Option Bytes

-- `lastError`: 0, -1, -3 and 2.
pub data LastError : Type 0 where
  no_error select_error no_memory acl_denied : LastError

-- A null pointer with `lastError` and what a denied client has been sent, a request with the address of
-- its client, a fault while the denial is written, or a `select` that is still waiting.
pub data Connection : Type 0 where
  no_request : LastError → Bytes → Connection
  request_for : Bytes → Connection
  fault waiting : Connection

-- The loop over `select`; `none` is its end with a connection.
unfoldable pub wait_for : Bool → List Select → Option Connection
wait_for has_timeout [] = some waiting
wait_for has_timeout (failed ∷ rest) = some (no_request select_error [])
wait_for has_timeout (timed_out ∷ rest) =
    let again = wait_for has_timeout rest in
    if has_timeout then some (no_request no_error []) else again
wait_for has_timeout (readable ∷ rest) = none

-- The copy into `clientAddr`, which has 17 characters.
abbrev pub client_of : Option Bytes → Bytes
client_of none = []
client_of (some ipaddr) = take 16 ipaddr

-- What `memset` leaves of the response.
abbrev pub cleared_response : Bytes → Response
cleared_response client_addr = record {
  request = new_request;
  client_addr = client_addr;
  response_length = 0;
  headers_sent = false;
  headers = [];
  response = [];
  content_type = [];
  sent = [];
}

-- A client that `httpdCheckAcl` has denied: the message is sent and the request ended.
unfoldable pub deny : System → Server → Bytes → Connection
unfolding send403
deny sys server client_addr = elim (send403 sys server (cleared_response client_addr)) [
  | none ↦ fault
  | some r ↦ no_request acl_denied r.sent
]

-- The test of the default list, which is null when it is empty.
unfoldable pub check_default : System → Server → List AclRule → Bytes → Connection
unfolding check_acl deny
check_default sys server [] client_addr = request_for client_addr
check_default sys server (rule ∷ acl) client_addr =
    if check_acl (rule ∷ acl) client_addr == acl_deny
    then deny sys server client_addr
    else request_for client_addr

-- `httpdGetConnection`.
unfoldable pub get_connection : System → Server → List AclRule → Bool → Call → Connection
unfolding wait_for check_default
get_connection sys server default_acl has_timeout call = elim (wait_for has_timeout call.selects) [
  | some c ↦ c
  | none ↦
      if call.allocated
      then check_default sys server default_acl (client_of call.ipaddr)
      else no_request no_memory []
]

-- The loop of `start`, which gives no timeout: the clients that it hands to `pthread_create`, whose
-- result does not change the loop; the block of `params` is there.
unfoldable pub start_loop : System → Server → List AclRule → List Call → List Bytes
unfolding get_connection
start_loop sys server default_acl [] = []
start_loop sys server default_acl (call ∷ calls) =
    let later = start_loop sys server default_acl calls in
    elim (get_connection sys server default_acl false call) [
      | no_request last_error sent ↦ later
      | request_for client_addr ↦ client_addr ∷ later
      | fault ↦ []
      | waiting ↦ []
    ]
