-- ===== src/Dtls/Hello/Client/Decoding.antt =====
-- What a ClientHello is decoded from is what it is written as.
use mathlib.Core.Path.{sym, subst, ap, ap₂}
use ot_commissioner_rs.Base.{
  eq_of_guard, true_of_not, ◌*◌, ok-injective, append_assoc, refl, not, to_be-from_be_u16,
  fail_if-eq-ok, arith, bind-eq-ok, IsU16, true, ◌==◌, ◌^◌, append-nil, ◌∷◌, ◌%◌, ◌<◌, inr, as_u8,
  ok, length, ◌++◌, ◌∙◌, ◌⊎◌, IsByte, to_be_u16, inl, [], All, ℕ, ◌≡◌, List, Bytes,
}
use ot_commissioner_rs.Dtls.Cursor.{
  read_u16, read_array_32, read_exact, read_vec_u8, read_vec_u16, finish, finish-takes,
  read_u16-Writes, read_exact-Writes, read_vec_u8-Writes, read_vec_u16-Writes,
}
use ot_commissioner_rs.Dtls.Hello.{ClientHello, TlsExtension, read_extensions}
use ot_commissioner_rs.Dtls.Hello.Client.{suite_bytes, suites_of, encode, decode}
use ot_commissioner_rs.Dtls.Hello.Client.RoundTrip.{
  IsTyped, Fits, message, encode-ok, length-suite_bytes,
}
use ot_commissioner_rs.Dtls.Hello.Extensions.{HasType, CanWrite, block, read_extensions-takes}
use ot_commissioner_rs.Dtls.Record.{dtls_1_2_version}

-- An even number of bytes is as many suites.
suite_bytes-suites_of :
    (bytes : Bytes)
    → All IsByte bytes
    → (length bytes % 2 == 0) ≡ true
    → (suite_bytes (suites_of bytes) ≡ bytes) × All IsU16 (suites_of bytes)
unfolding suite_bytes suites_of
suite_bytes-suites_of [] h e = (refl, tt)
suite_bytes-suites_of (b ∷ []) h e = absurd (cc)
suite_bytes-suites_of (b0 ∷ b1 ∷ bytes) h e =
    let (same, words) = suite_bytes-suites_of bytes h.1.1 (ground arith) in
    (ap₂ ◌++◌ (to_be-from_be_u16 b0 b1 h.0 h.1.0) same, (omega arith, words))

-- The extension block is absent, or stands at the end.
abbrev pub EndsIn : List TlsExtension → (Bytes → Bytes) → Bytes → Type 0
EndsIn es front bytes = ((es ≡ []) × (bytes ≡ front [])) ⊎ (bytes ≡ front (block es))

pub read_extensions-EndsIn :
    (bytes rest : Bytes) (es : List TlsExtension)
    → All IsByte bytes
    → read_extensions bytes ≡ ok (es, rest)
    → finish rest ≡ ok tt
    → All HasType es × CanWrite es × EndsIn es (λ b. b) bytes
read_extensions-EndsIn bytes rest es all e end =
    let (types, can, cases) = read_extensions-takes bytes rest es all e in
    (
      types,
      can,
      elim cases [
        | inl (bare, none_read, left) ↦ inl (none_read, bare)
        | inr split ↦
            inr (split ∙ ap (λ r. block es ++ r) (finish-takes rest end) ∙ append-nil (block es))
      ],
    )

pub EndsIn-map :
    (es : List TlsExtension) (front front' : Bytes → Bytes) (bytes whole : Bytes)
    → ((t : Bytes) → bytes ≡ front t → whole ≡ front' t)
    → EndsIn es front bytes
    → EndsIn es front' whole
EndsIn-map es front front' bytes whole f (inl (bare, split)) = inl (bare, f [] split)
EndsIn-map es front front' bytes whole f (inr split) = inr (f (block es) split)

-- The fields that are decoded, with the bytes before the extensions.
abbrev fields : Bytes → Bytes → Bytes → Bytes → Bytes → Bytes → Bytes
fields random session_id cookie suites methods tail =
    to_be_u16 dtls_1_2_version
    ++ (random
        ++ (as_u8 (length session_id)
            ∷ (session_id
                ++ (as_u8 (length cookie)
                    ∷ (cookie
                        ++ (to_be_u16 (length suites)
                            ++ (suites ++ (as_u8 (length methods) ∷ (methods ++ tail)))))))))

abbrev fields_of : ClientHello → ℕ → Bytes → Bytes → Bytes
fields_of h n suites tail =
    to_be_u16 dtls_1_2_version
    ++ (h.random
        ++ (as_u8 (length h.session_id)
            ∷ (h.session_id
                ++ (as_u8 (length h.cookie)
                    ∷ (h.cookie
                        ++ (to_be_u16 n
                            ++ (suites
                                ++ (as_u8 (length h.compression_methods)
                                    ∷ (h.compression_methods ++ tail)))))))))

fields_tail :
    (h : ClientHello) (suites tail : Bytes)
    → fields_of h (length suites) suites [] ++ tail ≡ fields_of h (length suites) suites tail
fields_tail h suites tail = simp (append_assoc, append-nil)

-- What decoding gives, with the bytes of the suites.
record Decoded (bytes : Bytes) (h : ClientHello) : Type 0 where
  suites : Bytes
  suites-are : h.cipher_suites ≡ suites_of suites
  inner : All IsByte suites
  few : length suites < 2 ^ 16
  even : (length suites % 2 == 0) ≡ true
  random : length h.random ≡ 32
  session_id : length h.session_id < 256
  cookie : length h.cookie < 256
  methods : length h.compression_methods < 256
  types : All HasType h.extensions
  can : CanWrite h.extensions
  end :
      EndsIn h.extensions (fields h.random h.session_id h.cookie suites h.compression_methods) bytes

decode-Decoded :
    (bytes : Bytes) (h : ClientHello) → All IsByte bytes → decode bytes ≡ ok h → Decoded bytes h
unfolding decode read_array_32
decode-Decoded bytes h all e =
    let ((version, b1), k1, e1) = bind-eq-ok (read_u16 bytes) _ e in
    let (right, e1') = fail_if-eq-ok (not (version == dtls_1_2_version)) _ _ e1 in
    let ((random, b2), k2, e2) = bind-eq-ok (read_exact 32 b1) _ e1' in
    let ((session_id, b3), k3, e3) = bind-eq-ok (read_vec_u8 b2) _ e2 in
    let ((cookie, b4), k4, e4) = bind-eq-ok (read_vec_u8 b3) _ e3 in
    let ((suites, b5), k5, e5) = bind-eq-ok (read_vec_u16 b4) _ e4 in
    let (even, e5') = fail_if-eq-ok (not (length suites % 2 == 0)) _ _ e5 in
    let ((methods, b6), k6, e6) = bind-eq-ok (read_vec_u8 b5) _ e5' in
    let ((extensions, b7), k7, e7) = bind-eq-ok (read_extensions b6) _ e6 in
    let (u, k8, done) = bind-eq-ok (finish b7) _ e7 in
    let (w1, word) = read_u16-Writes bytes version b1 all k1 in
    let (w2, n2) = read_exact-Writes 32 b1 random b2 w1.later k2 in
    let (w3, n3) = read_vec_u8-Writes b2 session_id b3 w2.later k3 in
    let (w4, n4) = read_vec_u8-Writes b3 cookie b4 w3.later k4 in
    let (w5, n5, inner) = read_vec_u16-Writes b4 suites b5 w4.later k5 in
    let (w6, n6) = read_vec_u8-Writes b5 methods b6 w5.later k6 in
    let (types, can, end) = read_extensions-EndsIn b6 b7 extensions w6.later k7 k8 in
    subst (Decoded bytes) (ok-injective done) (record {
      suites = suites;
      suites-are = refl;
      inner = inner;
      few = n5;
      even = true_of_not _ even;
      random = n2;
      session_id = n3;
      cookie = n4;
      methods = n6;
      types = types;
      can = can;
      end =
          EndsIn-map extensions (λ b. b) _ b6 bytes
            (λ t same.
              w1.split
              ∙ ap₂ (λ v l. to_be_u16 v ++ l) (eq_of_guard version dtls_1_2_version right)
                  (w2.split
                    ∙ ap (λ l. random ++ l)
                        (w3.split
                          ∙ ap (λ l. as_u8 (length session_id) ∷ (session_id ++ l))
                              (w4.split
                                ∙ ap (λ l. as_u8 (length cookie) ∷ (cookie ++ l))
                                    (w5.split
                                      ∙ ap (λ l. to_be_u16 (length suites) ++ (suites ++ l))
                                          (w6.split
                                            ∙ ap (λ l. as_u8 (length methods) ∷ (methods ++ l))
                                                same))))))
            end;
    })

-- Bytes that are read as a ClientHello are what it is written as, or lack the two bytes of an empty
-- extension block, and then the hello has no extensions. The hello is typed.
pub encode-decode_client :
    (bytes : Bytes) (h : ClientHello)
    → All IsByte bytes
    → decode bytes ≡ ok h
    → IsTyped h
      × ((encode h ≡ ok bytes) ⊎ ((h.extensions ≡ []) × (encode h ≡ ok (bytes ++ 0 ∷ 0 ∷ []))))
encode-decode_client bytes h all e =
    let d = decode-Decoded bytes h all e in
    let (same, words) = suite_bytes-suites_of d.suites d.inner d.even in
    let same' : suite_bytes h.cipher_suites ≡ d.suites = ap suite_bytes d.suites-are ∙ same in
    let size : length h.cipher_suites * 2 ≡ length d.suites =
      sym (length-suite_bytes h.cipher_suites) ∙ ap length same' in
    let fits : Fits h = record {
      session_id = d.session_id;
      cookie = d.cookie;
      methods = d.methods;
      suites = omega (arith, size, d.few);
      extensions = d.can;
    } in
    let whole : message h
        ≡ fields h.random h.session_id h.cookie d.suites h.compression_methods
            (block h.extensions) =
      ap₂ (λ n s. fields_of h n s (block h.extensions)) size same' in
    (
      record {
        random = d.random;
        suites = subst (All IsU16) (sym d.suites-are) words;
        types = d.types;
      },
      elim d.end [
        | inr split ↦ inl (encode-ok h fits ∙ ap ok (whole ∙ sym split))
        | inl (bare, split) ↦ inr (
          bare,
          encode-ok h fits
              ∙ ap ok (
                  whole
                  ∙ ap (λ x. fields_of h (length d.suites) d.suites (block x)) bare
                  ∙ sym (ap (λ b. b ++ 0 ∷ 0 ∷ []) split ∙ fields_tail h d.suites (0 ∷ 0 ∷ []))),
        )
      ],
    )
