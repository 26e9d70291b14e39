-- ===== src/Message/Response.antt =====
-- src/response.h and src/response.cpp: `Response::code`.
pub mod Reads
use faster_config.Base.{ℕ, [], ◌∷◌, ◌++◌, Bytes}
use faster_config.Message.{Header, put16bits, code_hdr}
use faster_config.Name.{code_domain}

-- What `Response::code` writes behind the name.
unfoldable pub canned : Bytes → Bytes
canned buffer =
    let b1 = put16bits buffer 0x0100 in
    let b2 = put16bits b1 0x01c0 in
    let b3 = put16bits b2 0x0c00 in
    let b4 = put16bits b3 0x0100 in
    let b5 = put16bits b4 0x0100 in
    let b6 = put16bits b5 0x0000 in
    let b7 = put16bits b6 0x0000 in
    let b8 = put16bits b7 0x04ac in let b9 = put16bits b8 0x1fff in b9 ++ 0xf0 ∷ []

-- `Response`, as far as `code` reads it.
pub record Response : Type 0 where
  pub header : Header
  pub m_name : Bytes

-- `Response::code`: the bytes written, whose number it returns.
unfoldable pub code : Response → Bytes
code r = canned (code_domain (code_hdr r.header) r.m_name)
