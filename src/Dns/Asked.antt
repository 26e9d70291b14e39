-- ===== src/Dns/Asked.antt =====
-- src/dnsserver.cpp: the datagrams that `run` answers, byte by byte.
use faster_config.Base.{
  ℕ, zero, suc, ◌+◌, ◌*◌, ◌^◌, ◌<◌, Option, some, [], ◌∷◌, Bytes, IsByte, true, All, get_or, drop,
  field, Option-cases, inl, inr, ◌≡◌, refl, sym, ap, ◌∙◌, arith,
}
use faster_config.Wire.{get2byte}
use faster_config.Dns.Types.{dns_header, htons}
use faster_config.Dns.Reply.{InAddr, s_addr, prepare_reply}
use faster_config.Dns.Server.{
  Server, Outcome, sent, out_of_bounds, packet, is_query, receive, dispatch, serve,
}
use faster_config.Dns.Loop.{dispatch-eq-sent}

-- A word of the network at an offset.
abbrev pub word : Bytes → ℕ → ℕ
word b i = get_or b i 0 * 256 + get_or b (suc i) 0

byte_at : (b : Bytes) (i : ℕ) → All IsByte b → get_or b i 0 < 256
byte_at [] i h = omega arith
byte_at (x ∷ b) zero (hx, h) = hx
byte_at (x ∷ b) (suc i) (hx, h) = byte_at b i h

get2byte-drop :
    (k : ℕ) (b : Bytes) {t : ℕ} {q : Bytes}
    → get2byte (drop k b) ≡ some (t, q)
    → (t ≡ word b k) × (q ≡ drop (suc (suc k)) b)
unfolding get2byte
get2byte-drop zero [] e = absurd (cc e)
get2byte-drop zero (x ∷ []) e = absurd (cc e)
get2byte-drop zero (x ∷ y ∷ b) {t} {q} e =
    let t_eq : t ≡ x * 2 ^ 8 + y = cc in let q_eq : q ≡ b = cc in (t_eq ∙ omega arith, q_eq)
get2byte-drop (suc k) [] e = absurd (cc e)
get2byte-drop (suc k) (x ∷ b) e = get2byte-drop k b e

is_query-words :
    (b : Bytes)
    → All IsByte b
    → is_query (dns_header b) ≡ true
    → (htons (dns_header b).id ≡ word b 0)
      × (field (get_or b 2 0) 3 5 ≡ 0)
      × (word b 4 ≡ 1)
      × (word b 6 ≡ 0)
unfolding is_query dns_header
is_query-words b h e =
    let b0 = byte_at b 0 h in
    let b1 = byte_at b 1 h in
    let b4 = byte_at b 4 h in
    let b5 = byte_at b 5 h in
    let b6 = byte_at b 6 h in
    let b7 = byte_at b 7 h in
    let low = byte_at b 2 h in
    let qr : field (get_or b 2 0) 7 1 ≡ 0 = ground (arith, e) in
    let opcode : field (get_or b 2 0) 3 4 ≡ 0 = ground (arith, e) in
    let num_q : htons (get_or b 4 0 + get_or b 5 0 * 256) ≡ 1 = ground (arith, e) in
    let num_answer : htons (get_or b 6 0 + get_or b 7 0 * 256) ≡ 0 = ground (arith, e) in
    (
      omega (arith, b0, b1),
      omega (arith, low, qr, opcode),
      omega (arith, b4, b5, num_q),
      omega (arith, b6, b7, num_answer),
    )

unsent :
    {s s' : Server} {p : Bytes} → ◌≡◌ {A = Server × Outcome} (s, out_of_bounds) (s', sent p) → ⊥
unsent h = cc

module _ (dn_expand : Bytes → Option ℕ → Bytes → Option ℕ × Bytes)
    (inet_aton : Bytes → InAddr) where
  -- When a round sends and `dn_expand` has read a name of n octets, the buffer holds a query as
  -- RFC 1035 has it: QR and OPCODE are 0, there is one question and no answer, and the class
  -- behind the name is IN. What is sent is the packet for the id, the name and the type that stand
  -- in the buffer, the type right behind the n octets. The buffer holds bytes.
  pub serve-words :
      (s : Server) (d : Option Bytes) (n : ℕ) (name : Bytes) {s' : Server} {p : Bytes}
      → serve dn_expand inet_aton s d ≡ (s', sent p)
      → dn_expand (receive s d).0 (receive s d).1 s.name ≡ (some n, name)
      → All IsByte (receive s d).0
      → let b = (receive s d).0 in
        (field (get_or b 2 0) 3 5 ≡ 0)
        × (word b 4 ≡ 1)
        × (word b 6 ≡ 0)
        × (word b (14 + n) ≡ 1)
        × (p
            ≡ packet
                (word b 0)
                name
                (word b (12 + n))
                1
                (prepare_reply (word b (12 + n)) (s_addr (inet_aton s.spoof_addr))))
  unfolding serve
  serve-words s d n name {s'} {p} h known bytes =
      let b = (receive s d).0 in
      elim (Option-cases (get2byte (drop (12 + n) b))) [
        | inl e ↦
            let out : serve dn_expand inet_aton s d ≡ (s, out_of_bounds) =
              rw (serve, known) (rw e refl) in
            absurd (unsent (sym out ∙ h))
        | inr ((t, q), e) ↦ elim (Option-cases (get2byte q)) [
          | inl f ↦
              let out : serve dn_expand inet_aton s d ≡ (s, out_of_bounds) =
                rw (serve, known) (rw e (rw f refl)) in
              absurd (unsent (sym out ∙ h))
          | inr ((c, q'), f) ↦
              let asked : Server = record s { buffer = b; t_type = t; t_class = c; name = name } in
              let run : serve dn_expand inet_aton s d ≡ dispatch dn_expand inet_aton asked name =
                rw (serve, known)
                  (rw e (
                    rw f (
                      ap
                        (λ (x : Option ℕ × Bytes).
                          dispatch dn_expand inet_aton
                            (record s { buffer = b; t_type = t; t_class = c; name = x.1 }) x.1)
                        known))) in
              let (query, in_class, same_type, same) =
                dispatch-eq-sent dn_expand inet_aton asked name {s' = s'} {p = p} (sym run ∙ h) in
              let (t_word, behind) = get2byte-drop (12 + n) b e in
              let more : 14 + n ≡ suc (suc (12 + n)) = omega arith in
              let (c_word, _) =
                get2byte-drop (14 + n) b
                  (ap (λ k. get2byte (drop k b)) more ∙ ap get2byte (sym behind) ∙ f) in
              let (id_word, flags, questions, answers) = is_query-words b bytes query in
              let ip = inet_aton s.spoof_addr in
              (
                flags,
                questions,
                answers,
                sym c_word ∙ in_class,
                same
                    ∙ ap
                        (λ k.
                          packet (htons (dns_header b).id) name t k (prepare_reply t (s_addr ip)))
                        in_class
                    ∙ ap (λ k. packet k name t 1 (prepare_reply t (s_addr ip))) id_word
                    ∙ ap (λ k. packet (word b 0) name k 1 (prepare_reply k (s_addr ip))) t_word,
              )
        ]
      ]
