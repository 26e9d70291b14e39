-- ===== src/Http.antt =====
-- src/httpd.h and src/httpd.cpp, the captive portal's web server. `Url` cleans a request's path,
-- `Escape` escapes and unescapes, `Acl` tests addresses, `Vars` keeps the variables of a request,
-- `Query` takes them from its query, `Page` fills a page with them, `Content` finds what a path names.
-- `Reader` reads lines, `Decode` base64, `Request` a whole request; `Response` writes headers, pages and
-- redirections, with `Arp` for the client's hardware address. `Accept` takes connections and `Serve`
-- answers one.
pub mod Url
pub mod Escape
pub mod Acl
pub mod Vars
pub mod Page
pub mod Query
pub mod Arp
pub mod Content
pub mod Reader
pub mod Decode
pub mod Request
pub mod Response
pub mod Serve
pub mod Accept
