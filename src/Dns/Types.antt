-- ===== src/Dns/Types.antt =====
-- src/dnsserver.h: the codes of the records and the header of a message.
-- `ns_type`, with `ns_t_wins`.
use faster_config.Base.{ℕ, suc, ◌+◌, ◌*◌, ◌/◌, ◌%◌, Bytes, field, get_or}

pub data NsType : Type 0 where
  invalid a ns md mf cname soa mb mg mr null wks ptr hinfo minfo mx txt rp afsdb x25 isdn rt nsap :
      NsType
  nsap_ptr sig key px gpos aaaa loc nxt eid nimloc srv atma naptr kx cert a6 dname sink opt : NsType
  tsig ixfr axfr mailb maila any zxfr max wins : NsType

unfoldable pub ns_code : NsType → ℕ
ns_code invalid = 0
ns_code a = 1
ns_code ns = 2
ns_code md = 3
ns_code mf = 4
ns_code cname = 5
ns_code soa = 6
ns_code mb = 7
ns_code mg = 8
ns_code mr = 9
ns_code null = 10
ns_code wks = 11
ns_code ptr = 12
ns_code hinfo = 13
ns_code minfo = 14
ns_code mx = 15
ns_code txt = 16
ns_code rp = 17
ns_code afsdb = 18
ns_code x25 = 19
ns_code isdn = 20
ns_code rt = 21
ns_code nsap = 22
ns_code nsap_ptr = 23
ns_code sig = 24
ns_code key = 25
ns_code px = 26
ns_code gpos = 27
ns_code aaaa = 28
ns_code loc = 29
ns_code nxt = 30
ns_code eid = 31
ns_code nimloc = 32
ns_code srv = 33
ns_code atma = 34
ns_code naptr = 35
ns_code kx = 36
ns_code cert = 37
ns_code a6 = 38
ns_code dname = 39
ns_code sink = 40
ns_code opt = 41
ns_code tsig = 250
ns_code ixfr = 251
ns_code axfr = 252
ns_code mailb = 253
ns_code maila = 254
ns_code any = 255
ns_code zxfr = 256
ns_code max = 65536
ns_code wins = 0xFF01

-- `ns_o_query` and `ns_c_in`.
abbrev pub ns_o_query : ℕ
ns_o_query = 0

abbrev pub ns_c_in : ℕ
ns_c_in = 1

-- A 16-bit value in the other byte order: `htons` and `ntohs` on a little-endian machine.
abbrev pub htons : ℕ → ℕ
htons x = x % 256 * 256 + x / 256 % 256

-- `struct dns_header`, laid over the first twelve bytes of a buffer with the bit fields in the
-- little-endian order that the build takes. The counts are as the machine reads them.
pub record DnsHeader : Type 0 where
  pub id : ℕ
  pub rd : ℕ
  pub tc : ℕ
  pub aa : ℕ
  pub opcode : ℕ
  pub qr : ℕ
  pub rcode : ℕ
  pub cd : ℕ
  pub ad : ℕ
  pub unused : ℕ
  pub ra : ℕ
  pub num_q : ℕ
  pub num_answer : ℕ
  pub num_auth : ℕ
  pub num_res : ℕ

abbrev byte_at : Bytes → ℕ → ℕ
byte_at buffer i = get_or buffer i 0

abbrev host16 : Bytes → ℕ → ℕ
host16 buffer i = byte_at buffer i + byte_at buffer (suc i) * 256

unfoldable pub dns_header : Bytes → DnsHeader
dns_header buffer =
    let low = byte_at buffer 2 in
    let high = byte_at buffer 3 in
    record {
      id = host16 buffer 0;
      rd = field low 0 1;
      tc = field low 1 1;
      aa = field low 2 1;
      opcode = field low 3 4;
      qr = field low 7 1;
      rcode = field high 0 4;
      cd = field high 4 1;
      ad = field high 5 1;
      unused = field high 6 1;
      ra = field high 7 1;
      num_q = host16 buffer 4;
      num_answer = host16 buffer 6;
      num_auth = host16 buffer 8;
      num_res = host16 buffer 10;
    }
