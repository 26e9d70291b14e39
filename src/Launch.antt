-- ===== src/Launch.antt =====
-- src/application.cpp, src/dnsserver.cpp and src/httpd.cpp: how the two threads of the servers take over
-- the members of the configuration, `do_dnsServer` and `do_httpServer`.
pub mod Configured
use faster_config.Base.{ℕ, Option, none, some, [], Bytes, ltb, if◌then◌else◌, length, ◌>>=◌}
use faster_config.Config.{Config}
use faster_config.Dns.Server.{Server, set_spoof_addr}
use faster_config.Http.Response.{Settings}

-- `strcpy` into an array; `none` is a write behind it.
unfoldable pub copy_into : ℕ → Bytes → Option Bytes
copy_into size s = if ltb (length s) size then some s else none

-- `set_spoof_addr`, with its array, in `do_dnsServer`.
unfoldable pub do_dns_server : Config → Server → Option Server
unfolding copy_into set_spoof_addr
do_dns_server c s = do addr ← copy_into 64 c.dns_ip; some (set_spoof_addr addr s)

-- `setHtmlPath` and `setReUrl`.
unfoldable pub set_html_path : Bytes → Settings → Option Settings
unfolding copy_into
set_html_path path set = do copied ← copy_into 64 path; some (record set { html_path = copied })

unfoldable pub set_re_url : Bytes → Settings → Option Settings
unfolding copy_into
set_re_url reurl set = do copied ← copy_into 512 reurl; some (record set { re_url = copied })

-- The size of the block that `malloc` gives for a size.
module _ (block : ℕ → ℕ) where
  -- The constructor of `Httpd`: the block is asked for without a place for the terminator.
  unfoldable pub new_httpd : Bytes → ℕ → Option Settings
  unfolding copy_into
  new_httpd ip_address port = do
    gw_address ← copy_into (block (length ip_address)) ip_address
    some (record { html_path = []; re_url = []; gw_address = gw_address; gw_port = port })

  -- `do_httpServer`, up to the start of the server; an indeterminate port is `none`.
  unfoldable pub do_http_server : Config → Option Settings
  unfolding new_httpd set_html_path set_re_url
  do_http_server c = do
    port ← c.http_port
    httpserver ← new_httpd c.gateway_ip port
    with_path ← set_html_path c.error_html httpserver
    set_re_url c.re_url with_path
