-- ===== src/Dtls/Handshake/Fragments.antt =====
-- Handshake headers and fragments against their bytes.
use ot_commissioner_rs.Base.{
  ◌==◌, ap, not, drop, bind-ne-stuck, ◌>>=◌, sym, fail_if-eq-ok, stuck, from_be-to_be_u16,
  bind-eq-ok, ℕ, ◌+◌, ◌*◌, ◌/◌, ◌≤◌, ◌^◌, ◌≡◌, ◌≢◌, refl, ◌∙◌, [], ◌∷◌, ◌++◌, arith, Bytes, IsByte,
  IsU16, Result, ok, length, bit_or_add, as_u8, to_be_u16,
}
use ot_commissioner_rs.Base.Framed.{framed, framed-Reads, HeadIsLocal}
use ot_commissioner_rs.Base.Loop.{Reads}
use ot_commissioner_rs.Dtls.{Error, crypto}
use ot_commissioner_rs.Dtls.Handshake.{
  HandshakeType, try_from, type_code, HandshakeHeader, HandshakeFragment, read_u24, write_u24,
  validate, parse_header, encode_header, parse_fragment, encode_fragment, max_u24,
}

try_from-type_code : (t : HandshakeType) → try_from (type_code t) ≡ ok t
unfolding try_from
try_from-type_code t = ground arith

read_u24-sum :
    (b0 b1 b2 : ℕ)
    → IsByte b0
    → IsByte b1
    → IsByte b2
    → read_u24 b0 b1 b2 ≡ b0 * 2 ^ 16 + b1 * 2 ^ 8 + b2
unfolding read_u24
read_u24-sum b0 b1 b2 h0 h1 h2 =
    rw
      (
        bit_or_add 16 (b0 * 2 ^ 16) (b1 * 2 ^ 8) (omega arith) (omega arith),
        bit_or_add 8 (b0 * 2 ^ 16 + b1 * 2 ^ 8) b2 (omega arith) (omega arith),
      )
      refl

abbrev u24_bytes : ℕ → Bytes
u24_bytes v = as_u8 (v / 2 ^ 16) ∷ as_u8 (v / 2 ^ 8) ∷ as_u8 v ∷ []

read_u24-u24_bytes :
    (v : ℕ) → v ≤ max_u24 → read_u24 (as_u8 (v / 2 ^ 16)) (as_u8 (v / 2 ^ 8)) (as_u8 v) ≡ v
read_u24-u24_bytes v h = read_u24-sum _ _ _ (omega arith) (omega arith) (omega arith) ∙ omega arith

-- What `validate` checks.
pub record Fits (h : HandshakeHeader) : Type 0 where
  pub len : h.len ≤ max_u24
  pub inside : h.fragment_offset + h.fragment_length ≤ h.len

validate-Fits : (h : HandshakeHeader) → validate h ≡ ok tt → Fits h
unfolding validate
validate-Fits h e = ground arith

pub Fits-validate : (h : HandshakeHeader) → Fits h → validate h ≡ ok tt
unfolding validate
Fits-validate h f = ground arith

abbrev pub header_bytes : HandshakeHeader → Bytes
header_bytes h =
    type_code h.message_type
    ∷ (u24_bytes h.len
        ++ (to_be_u16 h.message_seq
            ++ (u24_bytes h.fragment_offset ++ u24_bytes h.fragment_length)))

write_u24-ok : (v : ℕ) → v ≤ max_u24 → write_u24 v ≡ ok (u24_bytes v)
unfolding write_u24
write_u24-ok v h = ground arith

pub encode_header-ok : (h : HandshakeHeader) → Fits h → encode_header h ≡ ok (header_bytes h)
unfolding encode_header
encode_header-ok h f =
    rw
      (
        Fits-validate h f,
        write_u24-ok h.len f.len,
        write_u24-ok h.fragment_offset (omega arith),
        write_u24-ok h.fragment_length (omega arith),
      )
      refl

pub encode_header-takes :
    (h : HandshakeHeader) (bytes : Bytes)
    → encode_header h ≡ ok bytes
    → Fits h × (bytes ≡ header_bytes h)
encode_header-takes h bytes e =
    let fits = validate-Fits h (valid e) in (fits, cc (encode_header-ok h fits))
  where
    valid : encode_header h ≡ ok bytes → validate h ≡ ok tt
    valid = unfold encode_header in λ k. (bind-eq-ok (validate h) _ k).1

pub parse_header-header_bytes :
    (h : HandshakeHeader) (more : Bytes)
    → Fits h
    → IsU16 h.message_seq
    → parse_header (header_bytes h ++ more) ≡ ok h
unfolding parse_header
parse_header-header_bytes h more f w =
    rw
      (
        try_from-type_code h.message_type,
        read_u24-u24_bytes h.len f.len,
        read_u24-u24_bytes h.fragment_offset (omega arith),
        read_u24-u24_bytes h.fragment_length (omega arith),
        from_be-to_be_u16 h.message_seq w,
        Fits-validate h f,
      )
      refl

pub parse_header-HeadIsLocal : HeadIsLocal parse_header 12
unfolding parse_header
parse_header-HeadIsLocal (b0 ∷ b1 ∷ b2 ∷ b3 ∷ b4 ∷ b5 ∷ b6 ∷ b7 ∷ b8 ∷ b9 ∷ b10 ∷ b11 ∷ rest) h e =
    (omega arith, λ more. e)
parse_header-HeadIsLocal _ h e = absurd (cc)

validate-ne-stuck : (h : HandshakeHeader) → validate h ≢ stuck
unfolding validate
validate-ne-stuck h = ground arith

try_from-ne-stuck : (b : ℕ) → try_from b ≢ stuck
unfolding try_from
try_from-ne-stuck b = ground arith

parse_header-ne-stuck : (bytes : Bytes) → parse_header bytes ≢ stuck
unfolding parse_header
parse_header-ne-stuck (b0 ∷ _ ∷ _ ∷ _ ∷ _ ∷ _ ∷ _ ∷ _ ∷ _ ∷ _ ∷ _ ∷ _ ∷ _) =
    bind-ne-stuck (try_from b0) _ (try_from-ne-stuck b0)
      (λ t. bind-ne-stuck (validate _) _ (validate-ne-stuck _) (λ u p. cc))
parse_header-ne-stuck _ = λ p. cc

-- A fragment as a header with its payload, which also gives what follows it.
abbrev pub frame_fragment : Bytes → Result Error (HandshakeFragment × Bytes)
frame_fragment =
    framed parse_header (λ h. h.fragment_length) 12 (crypto "DTLS handshake fragment is truncated")
      (λ h piece. record { header = h; fragment = piece })

pub frame_fragment-parse_fragment :
    (bytes : Bytes)
    → frame_fragment bytes
      ≡ (parse_fragment bytes >>= λ f. ok (f, drop (12 + f.header.fragment_length) bytes))
unfolding framed parse_fragment
frame_fragment-parse_fragment bytes = ground arith

pub encode_fragment-takes :
    (f : HandshakeFragment) (bytes : Bytes)
    → encode_fragment f ≡ ok bytes
    → Fits f.header
      × (length f.fragment ≡ f.header.fragment_length)
      × (bytes ≡ header_bytes f.header ++ f.fragment)
unfolding encode_fragment
encode_fragment-takes f bytes e =
    let (same, e1) = fail_if-eq-ok (not (length f.fragment == f.header.fragment_length)) _ _ e in
    let (head, k, e2) = bind-eq-ok (encode_header f.header) _ e1 in
    let (fits, h) = encode_header-takes f.header head k in (fits, ground arith, cc)

pub encode_fragment-ok :
    (f : HandshakeFragment)
    → Fits f.header
    → length f.fragment ≡ f.header.fragment_length
    → encode_fragment f ≡ ok (header_bytes f.header ++ f.fragment)
unfolding encode_fragment
encode_fragment-ok f fits e = rw (encode_header-ok f.header fits) (ground arith)

pub encode_fragment-Reads :
    (f : HandshakeFragment) (bytes : Bytes)
    → IsU16 f.header.message_seq
    → encode_fragment f ≡ ok bytes
    → Reads frame_fragment f bytes
encode_fragment-Reads f bytes w e =
    let (fits, size, b) = encode_fragment-takes f bytes e in
    rw b (
      framed-Reads parse_header _ 12 _ _ (header_bytes f.header) f.fragment f.header (omega arith)
        refl size (λ more. parse_header-header_bytes f.header more fits w))

-- A fragment is read back from the front of any bytes that begin with its encoding.
pub parse_fragment-encode_fragment :
    (f : HandshakeFragment) (bytes rest : Bytes)
    → IsU16 f.header.message_seq
    → encode_fragment f ≡ ok bytes
    → parse_fragment (bytes ++ rest) ≡ ok f
parse_fragment-encode_fragment f bytes rest w e =
    let r = encode_fragment-Reads f bytes w e in
    let (g, k, same) =
      bind-eq-ok (parse_fragment (bytes ++ rest)) _
        (sym (frame_fragment-parse_fragment (bytes ++ rest)) ∙ r.reads rest) in
    k ∙ ap ok (cc)

pub parse_fragment-ne-stuck : (bytes : Bytes) → parse_fragment bytes ≢ stuck
unfolding parse_fragment
parse_fragment-ne-stuck bytes =
    bind-ne-stuck (parse_header bytes) _ (parse_header-ne-stuck bytes) (λ h. ground arith)

pub parse_fragment-room :
    (bytes : Bytes) (f : HandshakeFragment) → parse_fragment bytes ≡ ok f → 12 ≤ length bytes
unfolding parse_fragment
parse_fragment-room bytes f e =
    let (h, k, later) = bind-eq-ok (parse_header bytes) _ e in
    (parse_header-HeadIsLocal bytes h k).0
