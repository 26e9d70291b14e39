-- ===== src/Tests/Portal.antt =====
-- src/httpd.cpp: connections and answers of the server, at concrete inputs.
use faster_config.Base.{
  List, ◌≤◌, ◌*◌, ◌^◌, inl, inr, ◌<◌, none, some, [], ◌∷◌, ◌++◌, Bytes, codes, true, not, ◌==◌,
  length, replicate, All, ltb→lt, ◌≡◌, refl, ◌≢◌, arith,
}
use faster_config.Http.Acl.{AclRule, acl_permit, acl_deny}
use faster_config.Http.Serve.{set_error_function, start_server}
use faster_config.Http.Accept.{Call, failed, timed_out, readable, wait_for, start_loop}
use faster_config.Http.Accept.Permitted.{Ends, connected, permitted, start_loop-permitted}
use faster_config.Http.Arp.{arp_get, is_ip, is_mac}
use faster_config.Http.Arp.Words.{IsWord}
use faster_config.Http.Arp.Table.{Row, IsRow, rows_text, mac_of, arp_get-rows_text}
use faster_config.Http.Request.{new_request}
use faster_config.Http.Request.Text.{all}
use faster_config.Http.Response.{System, Settings, http_max_headers, standard_response}
use faster_config.Http.Response.Headers.{add_headers, add_headers-length}

abbrev arp_header : Bytes
arp_header = codes "IP address       HW type     Flags       HW address            Mask     Device"

abbrev neighbour : Bytes → Bytes → Row
neighbour ip mac = record {
  ip = ip;
  hw_type = codes "0x1";
  flags = codes "0x2";
  mac = mac;
  mask = codes "*";
  device = codes "br-lan";
  ip_padding = 5;
  hw_padding = 8;
  flags_padding = 8;
  mac_padding = 4;
  mask_padding = 7;
}

abbrev neighbours : List Row
neighbours =
    neighbour (codes "192.168.1.9") (codes "00:11:22:33:44:55")
    ∷ neighbour (codes "192.168.1.7") (codes "aa:bb:cc:dd:ee:ff")
    ∷ []

hw-IsWord : IsWord (codes "0x1")
unfolding all
hw-IsWord = (λ e. cc, refl)

flags-IsWord : IsWord (codes "0x2")
unfolding all
flags-IsWord = (λ e. cc, refl)

mask-IsWord : IsWord (codes "*")
unfolding all
mask-IsWord = (λ e. cc, refl)

device-IsWord : IsWord (codes "br-lan")
unfolding all
device-IsWord = (λ e. cc, refl)

neighbour-IsRow :
    (ip mac : Bytes)
    → ip ≢ []
    → all is_ip ip ≡ true
    → length ip ≤ 15
    → mac ≢ []
    → all is_mac mac ≡ true
    → length mac ≤ 17
    → IsRow (neighbour ip mac)
neighbour-IsRow ip mac a b c d e f = record {
  ip_text = (a, b, c);
  mac_text = (d, e, f);
  hw_word = hw-IsWord;
  flags_word = flags-IsWord;
  mask_word = mask-IsWord;
  device_word = device-IsWord;
}

neighbours-IsRow : All IsRow neighbours
unfolding all
neighbours-IsRow = (
  neighbour-IsRow _ _ (λ e. cc) refl (omega arith) (λ e. cc) refl (omega arith),
  (neighbour-IsRow _ _ (λ e. cc) refl (omega arith) (λ e. cc) refl (omega arith), tt),
)

arp_header-line : all (λ c. not (c == b'\n')) arp_header ≡ true
unfolding all
arp_header-line = refl

arp_get-rows_text_example :
    arp_get (some (arp_header ++ b'\n' ∷ rows_text neighbours)) (codes "192.168.1.7")
    ≡ mac_of (codes "192.168.1.7") neighbours
arp_get-rows_text_example =
    arp_get-rows_text arp_header neighbours (codes "192.168.1.7") arp_header-line neighbours-IsRow

abbrev box : System
box = record {
  time_string = λ t. codes "Thu, 01 Jan 1970 00:00:00 GMT";
  file = λ path. some (codes "<h1>$title</h1>$message", 7);
  proc_net_arp = some (arp_header ++ b'\n' ∷ rows_text neighbours);
}

abbrev portal : Settings
portal = record {
  html_path = codes "/etc/fasterconfig/msg.html";
  re_url = codes "http://login.lan";
  gw_address = codes "192.168.1.1";
  gw_port = 80;
}

add_headers-length_example :
    length
      (add_headers
        (replicate 1100 b'x' ∷ codes "A: b" ∷ [])
        (standard_response [] new_request)).headers
    < http_max_headers
add_headers-length_example =
    add_headers-length (replicate 1100 b'x' ∷ codes "A: b" ∷ []) (standard_response [] new_request)
      (ltb→lt _ _ refl)

abbrev local_rules : List AclRule
local_rules =
    record { block = record { addr = 10 * 2 ^ 24; len = 8 }; action = acl_permit }
    ∷ record { block = record { addr = 0; len = 0 }; action = acl_deny }
    ∷ []

abbrev four_calls : List Call
four_calls =
    record {
      selects = timed_out ∷ readable ∷ [];
      allocated = true;
      ipaddr = some (codes "10.0.0.7");
    }
    ∷ record { selects = failed ∷ []; allocated = true; ipaddr = none }
    ∷ record { selects = readable ∷ []; allocated = true; ipaddr = some (codes "11.0.0.1") }
    ∷ record { selects = readable ∷ []; allocated = true; ipaddr = some (codes "10.1.1.1") }
    ∷ []

four_calls-Ends : All Ends four_calls
unfolding wait_for
four_calls-Ends = (λ e. cc, (λ e. cc, (λ e. cc, (λ e. cc, tt))))

start_loop-permitted_example :
    start_loop box (start_server box portal 1) local_rules four_calls
    ≡ permitted local_rules (connected four_calls)
unfolding start_server set_error_function
start_loop-permitted_example =
    start_loop-permitted box (start_server box portal 1) local_rules four_calls
      (inl refl, (inr refl, tt)) refl four_calls-Ends
