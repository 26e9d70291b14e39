-- ===== src/Launch/Configured.antt =====
-- src/application.cpp: from the configuration file to the servers.
use faster_config.Base.{ℕ, ◌<◌, some, Bytes, lt→ltb, length, ◌≡◌, refl}
use faster_config.Config.{Config}
use faster_config.Dns.Server.{Server}
use faster_config.Http.Response.{Settings}
use faster_config.Launch.{copy_into}

-- What the HTTP server has of a configuration.
abbrev pub settings_of : Config → ℕ → Settings
settings_of c port = record {
  html_path = c.error_html;
  re_url = c.re_url;
  gw_address = c.gateway_ip;
  gw_port = port;
}

copy_into-fits : (size : ℕ) (s : Bytes) → length s < size → copy_into size s ≡ some s
unfolding copy_into
copy_into-fits size s h = rw (copy_into, lt→ltb _ _ h) refl
