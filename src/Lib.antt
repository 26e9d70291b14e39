-- ===== src/Lib.antt =====
-- FasterConfig is a captive portal for a device without a network: while a lock file exists or the
-- station interface has no address, it redirects the DNS and HTTP traffic of the access point to
-- itself, answers every DNS query with a spoofed address, and serves one page over HTTP.
--
-- The parts, and the files that model them (paths from the repository's root):
--
--   src/application.cpp    `Application::run`, `islocked`: Control, Control/*;
--                          `getNetworkStatus`: Control/Network; `do_dnsServer`,
--                          `do_httpServer`: Launch.
--                          `read_config_file`, `read_*_from_config_line`: Config, Config/*.
--   src/iptable.cpp        the commands of `Iptable`: Iptable, Iptable/Chains, Iptable/Redirect.
--   src/dnsserver.cpp      `DnsServer`: Wire (get2byte, put2byte), Name (encode_domain), Dns/Types
--                          (dns_header, ns_type), Dns/Reply (prepare_dns_reply_*), Dns/Server (run).
--   src/httpd.cpp          `Httpd`: Http/Url (_httpd_sanitiseUrl), Http/Escape (_httpd_escape,
--                          httpdUrlEncode, _httpd_unescape), Http/Acl (scanCidr, _isInCidrBlock,
--                          httpdAddAcl, httpdCheckAcl), Http/Vars (httpdAddVariable,
--                          httpdGetVariableByName), Http/Query (_httpd_storeData),
--                          Http/Page (httpdOutput), Http/Content (_httpd_findContentDir,
--                          httpdAddCContent, httpdProcessRequest up to the entry), Http/Reader
--                          (_httpd_readLine, _httpd_readChar), Http/Decode (_httpd_decode),
--                          Http/Request (httpdReadRequest), Http/Response (httpdAddHeader,
--                          _httpd_sendHeaders, http_callback_404, http_send_redirect), Http/Arp
--                          (arp_get), Http/Serve (httpdProcessRequest with what it serves,
--                          thread_httpd), Http/Accept (httpdGetConnection, the loop of
--                          Httpd::start).
--   src/DNSLookup.cpp      `EncodeDotStr`, `DecodeDotStr`, `SendDNSRequest`: Lookup;
--                          `RecvDNSResponse`: Lookup/Receive; `DNSLookup`: Lookup/Client.
--   src/message.cpp        `Message`: Message, Message/Words; `asString`: Message/Print;
--                          `log_buffer`, and `dump_buffer` of src/dnsserver.cpp: Dump.
--   src/query.cpp          `Query::decode`, `decode_qname`: Message/Query.
--   src/response.cpp       `Response::code`: Message/Response; `code_domain`: Name.
--   src/resolver.cpp       `Resolver`: Resolver, Resolver/Hosts, Resolver/Answers.
--   src/logger.cpp         `Logger`: Logger.
--
-- `Application::run` starts the DNS and the HTTP server as threads that share only the
-- configuration with it (Launch), and calls the packet filter, so Control, Dns and Http stand side
-- by side; Dns uses Wire and Name, and Resolver joins Message/Query and Message/Response.
-- Lookup/Request sends what the DNS client asks to Dns, and Lookup/Receive/Spoofed what Dns answers
-- to the client. In Http, Accept hands a connection to a worker, which reads it with Request and
-- answers it with Serve; Serve/Login follows one request from its bytes to the bytes of the answer.
-- Base has what they share. Beside the code stand descriptions that do not follow it: Name/Labels
-- and Dns/Reader read names and messages as RFC 1035 has them, Http/Page/Expand expands a page
-- without counters, Http/Request/Lines reads a request from the list of its lines,
-- Http/Request/Sent says what a request means, Http/Decode/Groups encodes, Http/Acl/Mask compares
-- leading bits, Iptable/Redirect lists the rules of each chain, and Config/Entries
-- gives ports and texts to the members of a configuration.
--
-- A `char` array is the list of its bytes, a C string the bytes before its terminator, an unsigned
-- integer a natural number with its wrap-around written out, a linked list a list. A `char*&` that
-- is written through is the text written, one that is read through the text left. An access outside
-- an array is a value of the result (`none`, `out_of_bounds`, `overrun`, `heap_overflow`).
--
-- Loops are structural where the source walks over a text. `write_labels` has as fuel one more than
-- the length of the name, which is enough for every name (`write_labels-split`); `decode_loop`
-- takes its fuel from the caller, since the source does not always end, as does `decode_labels`,
-- whose pointers may lead back; `decimal` has the ten digits of a 32-bit number. A line is read
-- on one round more than the bytes to come, which is enough (Http/Reader/Lines), and so is the loop
-- over the headers, since a line takes a byte at least. `arp_get` has a round for each character of
-- the table, and one more.
--
-- Parameters: `dn_expand` and `inet_aton` of the C library in Dns/Server, of which Dns/Service
-- assumes that plain names of at most 253 characters are read; the shell with iptables in Iptable,
-- of which Iptable/Chains assumes what -F, -X, -I and -A do where the chains exist and are jumped
-- to, for rules that iptables accepts; in Http what the reads of a socket return, and the clock and
-- the files, as the fields of `System`; in Http/Accept what `select`, `malloc`, `accept` and
-- `inet_ntoa` give; in Lookup/Receive and Lookup/Client the datagrams and the size of a `ULONG`; in
-- Control/Network the list of `getifaddrs`; in Launch the size of the blocks that `malloc` gives.
--
-- Not modelled: `httpdCreate`, `DnsServer::init` and the socket of `CDNSLookup`, which open
-- sockets; the start of the threads, whether it succeeds, and the block for the parameters of a
-- worker; the log files of `Httpd`, which nothing opens; `Response::asString`, which prints members
-- that nothing sets.
pub mod Base
pub mod Config
pub mod Control
pub mod Dns
pub mod Dump
pub mod Http
pub mod Iptable
pub mod Launch
pub mod Logger
pub mod Lookup
pub mod Message
pub mod Name
pub mod Resolver
pub mod Tests
pub mod Wire
