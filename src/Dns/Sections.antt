-- ===== src/Dns/Sections.antt =====
-- The sections that the reader finds in the canned replies.
use faster_config.Base.{
  ℕ, Option, some, List, [], ◌∷◌, ◌++◌, Bytes, codes, ◌||◌, ◌==◌, if◌then◌else◌, ◌≡◌, refl, ◌≢◌,
  arith,
}
use faster_config.Dns.Types.{NsType, ns_code, a, ptr, mx, txt, aaaa, srv, soa}
use faster_config.Dns.Reply.{
  Reply, prepare_reply, prepare_dns_reply_a, prepare_dns_reply_mx, prepare_dns_reply_srv,
  prepare_dns_reply_default, mail_name, srv_label, two,
}
use faster_config.Dns.Reader.{Owner, Record, read_sections}

-- A record of class IN with the server's time to live.
abbrev pub record_of : Owner → NsType → Bytes → Record
record_of o t d = record { owner = o; rtype = ns_code t; rclass = 1; ttl = 3600; rdata = d }

-- The name of the question, by a pointer to it, and a label in front of that.
abbrev pub question_name : Owner
question_name = record { labels = []; pointer = some 12 }

abbrev pub under : Bytes → Owner
under l = record { labels = l ∷ []; pointer = some 12 }

-- The three sections that answer a query of a type, but for WINS.
unfoldable pub expected : ℕ → Bytes → List Record × List Record × List Record
unfolding ns_code
expected t addr =
    if t == ns_code txt || t == ns_code ptr || t == ns_code aaaa || t == ns_code a
    then (record_of question_name a addr ∷ [], [], [])
    else if t == ns_code mx
    then (
      record_of question_name mx (two 0x00 0x0a ++ mail_name) ∷ [],
      [],
      record_of (under (codes "mail")) a addr ∷ [],
    )
    else if t == ns_code srv
    then (
      record_of question_name srv
            (two 0 0 ++ two 0 0 ++ two 0x08 0x00 ++ srv_label ++ two 0xc0 0x0c)
          ∷ [],
      [],
      record_of (under (codes "srv")) a addr ∷ [],
    )
    else ([], record_of question_name soa soa_data ∷ [], [])
  where
    soa_data : Bytes
    soa_data =
        0x03 ∷ codes "ns1"
        ++ two 0xc0 0x0c
        ++ 0x05 ∷ codes "abuse"
        ++ two 0xc0 0x0c
        ++ two 0x51 0x79
        ++ two 0x57 0xf5
        ++ two 0x00 0x00
        ++ two 0x0e 0x10
        ++ two 0x00 0x00
        ++ two 0x02 0x58
        ++ two 0x00 0x09
        ++ two 0x3a 0x80
        ++ two 0x00 0x00
        ++ two 0x00 0x3c

abbrev pub sections_of : Reply → Option (List Record × List Record × List Record)
sections_of r = read_sections r.n_answ r.n_auth r.n_addi r.reply_data

sections_a :
    (x y z w : ℕ)
    → sections_of (prepare_dns_reply_a (x ∷ y ∷ z ∷ w ∷ []))
      ≡ some (expected 1 (x ∷ y ∷ z ∷ w ∷ []))
unfolding prepare_dns_reply_a read_sections expected
sections_a x y z w = refl

sections_mx :
    (x y z w : ℕ)
    → sections_of (prepare_dns_reply_mx (x ∷ y ∷ z ∷ w ∷ []))
      ≡ some (expected 15 (x ∷ y ∷ z ∷ w ∷ []))
unfolding prepare_dns_reply_mx read_sections expected
sections_mx x y z w = refl

sections_srv :
    (x y z w : ℕ)
    → sections_of (prepare_dns_reply_srv (x ∷ y ∷ z ∷ w ∷ []) 0)
      ≡ some (expected 33 (x ∷ y ∷ z ∷ w ∷ []))
unfolding prepare_dns_reply_srv read_sections expected
sections_srv x y z w = refl

sections_default : (addr : Bytes) → sections_of prepare_dns_reply_default ≡ some (expected 6 addr)
unfolding prepare_dns_reply_default read_sections expected
sections_default addr = refl

-- The records of every reply are read back, and nothing is left behind them.
pub prepare_reply-sections :
    (t x y z w : ℕ)
    → t ≢ 0xFF01
    → sections_of (prepare_reply t (x ∷ y ∷ z ∷ w ∷ [])) ≡ some (expected t (x ∷ y ∷ z ∷ w ∷ []))
unfolding prepare_reply expected
prepare_reply-sections t x y z w h = ground (
  arith,
  sections_a x y z w,
  sections_mx x y z w,
  sections_srv x y z w,
  sections_default (x ∷ y ∷ z ∷ w ∷ []),
)
