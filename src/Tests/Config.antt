-- ===== src/Tests/Config.antt =====
-- src/application.cpp: reading the configuration and starting the servers, at concrete inputs.
use faster_config.Base.{
  ℕ, map, All, Bool, false, ◌||◌, ◌==◌, arith, ◌<◌, none, some, [], ◌∷◌, Bytes, codes, ltb→lt, ◌≡◌,
  refl,
}
use faster_config.Config.{Config, read_config_file}
use faster_config.Config.Lines.{IsValue}
use faster_config.Config.Bounds.{IsFitted, read_config_file-IsFitted}
use faster_config.Dns.Server.{Server}
use faster_config.Config.RoundTrip.{file_of}
use faster_config.Config.Entries.{
  dns_port_is, http_port_is, text_is, the_lockfile, the_gateway_ip, written, put_all,
  read_config_file-entries,
}
use faster_config.Http.Acl.{is_space}

abbrev blank_config : Config
blank_config = record {
  dns_port = none;
  dns_ip = [];
  http_port = none;
  re_url = [];
  gateway_ip = [];
  error_html = [];
  lockfile = [];
  sta_interface = [];
  ap_interface = [];
}

path-IsValue : IsValue (codes "/tmp")
path-IsValue =
    (ltb→lt _ _ refl, (refl, (refl, (refl, (refl, tt)))), (refl, (refl, (refl, (refl, tt)))))

read_config_file-entries_example :
    read_config_file
      (file_of (map written (dns_port_is 53 ∷ text_is the_lockfile (codes "/tmp") ∷ [])))
      blank_config
    ≡ some (put_all (dns_port_is 53 ∷ text_is the_lockfile (codes "/tmp") ∷ []) blank_config)
read_config_file-entries_example =
    read_config_file-entries (dns_port_is 53) (text_is the_lockfile (codes "/tmp") ∷ [])
      blank_config (ltb→lt _ _ refl, ((path-IsValue, ltb→lt _ _ refl), tt))

-- A file with a port and an address, and what it sets.
abbrev portal_file : Bytes
portal_file =
    file_of (map written (http_port_is 80 ∷ text_is the_gateway_ip (codes "192.168.1.1") ∷ []))

abbrev portal_config : Config
portal_config =
    put_all (http_port_is 80 ∷ text_is the_gateway_ip (codes "192.168.1.1") ∷ []) blank_config

address-IsValue : IsValue (codes "192.168.1.1")
address-IsValue =
    (ltb→lt _ _ refl, spaceless (codes "192.168.1.1") refl, zeroless (codes "192.168.1.1") refl)
  where
    any : (ℕ → Bool) → Bytes → Bool
    any p [] = false
    any p (c ∷ s) = p c || any p s

    spaceless : (s : Bytes) → any is_space s ≡ false → All (λ c. is_space c ≡ false) s
    spaceless [] h = tt
    spaceless (c ∷ s) h = (ground (arith, h), spaceless s (ground (arith, h)))

    zeroless : (s : Bytes) → any (λ c. c == 0) s ≡ false → All (λ c. (c == 0) ≡ false) s
    zeroless [] h = tt
    zeroless (c ∷ s) h = (ground (arith, h), zeroless s (ground (arith, h)))

portal_config-read : read_config_file portal_file blank_config ≡ some portal_config
portal_config-read =
    read_config_file-entries (http_port_is 80) (text_is the_gateway_ip (codes "192.168.1.1") ∷ [])
      blank_config (ltb→lt _ _ refl, ((address-IsValue, ltb→lt _ _ refl), tt))

blank_config-IsFitted : IsFitted blank_config
blank_config-IsFitted =
    let short : 0 < 64 = omega arith in
    (short, (short, (short, (short, (short, (short, (short, tt)))))))

read_config_file-IsFitted_example : IsFitted portal_config
read_config_file-IsFitted_example =
    read_config_file-IsFitted portal_file blank_config portal_config blank_config-IsFitted
      portal_config-read

abbrev new_server : Server
new_server = record { buffer = []; name = []; t_class = 0; t_type = 0; spoof_addr = [] }
