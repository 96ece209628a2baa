-- ===== src/Meshcop/Coap/Nibbles.antt =====
-- Extended nibbles and option headers: what the decoder reads is what the encoder wrote.
use ot_commissioner_rs.Base.{
  lt→ltb, err, length-drop, length-take, ltb→le, take, subst, All-drop, fail_if-eq-ok, drop,
  drop-append_eq, bind-eq-ok, bind-ne-stuck, take-append_eq, stuck, IsByte, length-append, ◌≢◌, All,
  le→ltb, refl, drop-length-append, append_assoc, ◌∙◌, ◌/◌, bit_and_mask, bit_or_fields, ◌+◌, ◌^◌,
  ltb, false, ◌==◌, ◌*◌, bit_and, bit_or, ◌-◌, inr, inl, leb, Bool-cases, ℕ, ◌≤◌, ◌≡◌, [], ◌∷◌,
  ◌++◌, arith, Bytes, IsU16, ok, length, as_u8, to_be_u16,
}
use ot_commissioner_rs.Meshcop.Coap.{
  dataset, CoapOption, decode_option, encode_option_header, encode_extended_nibble,
  decode_extended_nibble,
}

-- The value's nibble, and the bytes behind it.
pub record Written (value nibble : ℕ) (extra : Bytes) : Type 0 where
  pub encoded : encode_extended_nibble value ≡ ok (nibble, extra)
  pub small : nibble ≤ 14
  pub decoded :
      (rest : Bytes) → decode_extended_nibble nibble (extra ++ rest) ≡ ok (value, length extra)

-- Every u16 is written.
pub encode_extended_nibble-Written :
    (value : ℕ) → IsU16 value → (nibble : ℕ) × (extra : Bytes) × Written value nibble extra
unfolding encode_extended_nibble decode_extended_nibble
encode_extended_nibble-Written value h = elim (Bool-cases (leb value 12)) [
  | inl e ↦ (
    value,
    [],
    record { encoded = ground arith; small = ground arith; decoded = λ rest. ground arith },
  )
  | inr e ↦ elim (Bool-cases (leb value 268)) [
    | inl k ↦ (
      13,
      as_u8 (value - 13) ∷ [],
      record { encoded = ground arith; small = omega arith; decoded = λ rest. ground arith },
    )
    | inr k ↦ (
      14,
      to_be_u16 (value - 269),
      record { encoded = ground arith; small = omega arith; decoded = λ rest. ground arith },
    )
  ]
]

first_byte : (d l : ℕ) → d ≤ 14 → l ≤ 14 → bit_or (as_u8 (d * 2 ^ 4)) l ≡ d * 2 ^ 4 + l
first_byte d l h k =
    let whole : as_u8 (d * 2 ^ 4) ≡ d * 2 ^ 4 = omega arith in
    rw whole (bit_or_fields 4 d l (omega arith))

low_nibble : (d l : ℕ) → l ≤ 14 → bit_and (d * 2 ^ 4 + l) 0x0f ≡ l
low_nibble d l h = bit_and_mask 4 (d * 2 ^ 4 + l) ∙ omega arith

-- An option's header, and that the option is read back from it.
pub record HeaderBytes (delta len first : ℕ) (extra : Bytes) : Type 0 where
  pub encoded : encode_option_header delta len ≡ ok (first ∷ extra)
  pub no_marker : (first == 0xff) ≡ false
  pub decoded :
      (last : ℕ) (value rest : Bytes)
      → length value ≡ len
      → IsU16 (last + delta)
      → decode_option last first (extra ++ (value ++ rest))
        ≡ ok (record { number = last + delta; value = value }, rest)

pub encode_option_header-HeaderBytes :
    (delta len : ℕ)
    → IsU16 delta
    → IsU16 len
    → (first : ℕ) × (extra : Bytes) × HeaderBytes delta len first extra
unfolding encode_option_header decode_option
encode_option_header-HeaderBytes delta len h k =
    let (d, dx, wd) = encode_extended_nibble-Written delta h in
    let (l, lx, wl) = encode_extended_nibble-Written len k in
    let short : ltb 65535 len ≡ false = ground arith in
    let high : (d * 2 ^ 4 + l) / 2 ^ 4 ≡ d = omega (arith, wl.small) in
    (
      d * 2 ^ 4 + l,
      dx ++ lx,
      record {
        encoded = rw (wd.encoded, short, wl.encoded, first_byte d l wd.small wl.small) refl;
        no_marker = ground (arith, wd.small, wl.small);
        decoded = λ last value rest size fits.
            rw
              (
                high,
                low_nibble d l wl.small,
                append_assoc dx lx (value ++ rest),
                wd.decoded (lx ++ (value ++ rest)),
                drop-length-append dx (lx ++ (value ++ rest)),
                wl.decoded (value ++ rest),
                drop-length-append lx (value ++ rest),
                enough value rest size,
                room last fits,
                take-append_eq len value rest size,
                drop-append_eq len value rest size,
              )
              refl;
      },
    )
  where
    enough : (value rest : Bytes) → length value ≡ len → ltb (length (value ++ rest)) len ≡ false
    enough value rest size = le→ltb _ _ (omega (arith, length-append value rest))

    room : (last : ℕ) → IsU16 (last + delta) → ltb 65535 (last + delta) ≡ false
    room last fits = le→ltb _ _ (omega arith)

decode_extended_nibble-IsU16 :
    (nibble : ℕ) (bytes : Bytes) (value used : ℕ)
    → All IsByte bytes
    → decode_extended_nibble nibble bytes ≡ ok (value, used)
    → IsU16 value
unfolding decode_extended_nibble
decode_extended_nibble-IsU16 nibble [] value used b e = ground arith
decode_extended_nibble-IsU16 nibble (b0 ∷ []) value used b e = ground (arith, b.0)
decode_extended_nibble-IsU16 nibble (b0 ∷ b1 ∷ bs) value used b e = ground (arith, b.0)

decode_extended_nibble-ne-stuck :
    (nibble : ℕ) (bytes : Bytes) → decode_extended_nibble nibble bytes ≢ stuck
unfolding decode_extended_nibble
decode_extended_nibble-ne-stuck nibble [] = ground arith
decode_extended_nibble-ne-stuck nibble (b0 ∷ []) = ground arith
decode_extended_nibble-ne-stuck nibble (b0 ∷ b1 ∷ bs) = ground arith

pub decode_option-ne-stuck :
    (last first : ℕ) (after : Bytes) → decode_option last first after ≢ stuck
unfolding decode_option
decode_option-ne-stuck last first after =
    bind-ne-stuck (decode_extended_nibble _ after) _ (decode_extended_nibble-ne-stuck _ after) (λ d.
      bind-ne-stuck (decode_extended_nibble _ (drop d.1 after)) _
        (decode_extended_nibble-ne-stuck _ (drop d.1 after)) (λ l. ground arith))

pub decode_option-shorter :
    (last first : ℕ) (after : Bytes) (o : CoapOption) (rest : Bytes)
    → decode_option last first after ≡ ok (o, rest)
    → length rest ≤ length after
unfolding decode_option
decode_option-shorter last first after o rest e =
    let (d, dd, e1) = bind-eq-ok (decode_extended_nibble _ after) _ e in
    let (l, dl, e2) = bind-eq-ok (decode_extended_nibble _ (drop d.1 after)) _ e1 in
    let left = drop l.1 (drop d.1 after) in
    let (enough, e3) = fail_if-eq-ok (ltb (length left) l.0) _ _ e2 in
    let (room, e4) = fail_if-eq-ok (ltb 65535 (last + d.0)) _ _ e3 in
    subst (λ b. length b ≤ length after) {x = drop l.0 left} (cc)
      (omega (arith, length-drop l.0 left, length-drop l.1 (drop d.1 after), length-drop d.1 after))

-- What a round of the decoder takes from bytes: an option that can be written again, whose number is
-- no smaller than the last, and no byte twice.
pub record Taken (last : ℕ) (after : Bytes) (o : CoapOption) (rest : Bytes) : Type 0 where
  pub ascends : last ≤ o.number
  pub number : IsU16 o.number
  pub value : IsU16 (length o.value)
  pub shorter : length rest ≤ length after
  pub bytes : All IsByte rest

pub decode_option-Taken :
    (last first : ℕ) (after : Bytes) (o : CoapOption) (rest : Bytes)
    → All IsByte after
    → decode_option last first after ≡ ok (o, rest)
    → Taken last after o rest
unfolding decode_option
decode_option-Taken last first after o rest b e =
    let (d, dd, e1) = bind-eq-ok (decode_extended_nibble _ after) _ e in
    let (l, dl, e2) = bind-eq-ok (decode_extended_nibble _ (drop d.1 after)) _ e1 in
    let left = drop l.1 (drop d.1 after) in
    let (enough, e3) = fail_if-eq-ok (ltb (length left) l.0) _ _ e2 in
    let (room, e4) = fail_if-eq-ok (ltb 65535 (last + d.0)) _ _ e3 in
    let len_fits =
      decode_extended_nibble-IsU16 _ (drop d.1 after) l.0 l.1 (All-drop IsByte d.1 after b) dl in
    subst (λ (p : CoapOption × Bytes). Taken last after p.0 p.1)
      {x = (record { number = last + d.0; value = take l.0 left }, drop l.0 left)} (cc)
      (record {
        ascends = omega arith;
        number = omega (arith, ltb→le _ _ room);
        value = omega (arith, length-take l.0 left, len_fits);
        shorter =
            omega (
              arith,
              length-drop l.0 left,
              length-drop l.1 (drop d.1 after),
              length-drop d.1 after,
            );
        bytes =
            All-drop IsByte l.0 left
              (All-drop IsByte l.1 (drop d.1 after) (All-drop IsByte d.1 after b));
      })

-- A longer value is refused.
pub encode_option_header-long :
    (delta len : ℕ)
    → IsU16 delta
    → 2 ^ 16 ≤ len
    → encode_option_header delta len ≡ err (dataset "CoAP option too long")
unfolding encode_option_header
encode_option_header-long delta len h k =
    let (d, dx, wd) = encode_extended_nibble-Written delta h in
    rw (wd.encoded, lt→ltb 65535 len (omega arith)) refl
