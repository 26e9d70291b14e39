-- ===== src/Dns.antt =====
-- src/dnsserver.h and src/dnsserver.cpp, the DNS server that answers every query with one address:
-- `Types` and `Reply` hold the constants, the header and the canned replies, `Server` the loop of
-- `run`. `Reader` reads a whole DNS message as RFC 1035 lays it out, and `Answer`, `Loop` and
-- `Asked` hold the proofs.
pub mod Types
pub mod Reply
pub mod Server
pub mod Reader
pub mod Sections
pub mod Answer
pub mod Asked
pub mod Loop
pub mod Service
