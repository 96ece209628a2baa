-- ===== src/Meshcop/Coap/Options.antt =====
-- The options of a message and its first byte, written and read back.
use ot_commissioner_rs.Base.{
  ltb→lt, bit_and_mask, bit_or_add, ltb→le, length-append, le→ltb, ℕ, zero, suc, ◌+◌, ◌-◌, ◌*◌, ◌/◌,
  ◌^◌, ◌≤◌, ◌≡◌, refl, ap, subst, ◌∙◌, ◌⊎◌, inl, inr, true, false, List, [], ◌∷◌, ◌++◌, bit_and,
  bit_or, arith, Bytes, IsU16, ok, err, length, ltb, ◌==◌, All, Bool-cases, as_u8, append-nil,
  append_assoc,
}
use ot_commissioner_rs.Errors.{dataset}
use ot_commissioner_rs.Meshcop.Coap.{
  CoapType, CoapOption, type_code, try_from, encode_options, marked, decode_option, decode_options,
}
use ot_commissioner_rs.Meshcop.Coap.Nibbles.{
  HeaderBytes, encode_option_header-HeaderBytes, encode_option_header-long,
}
use ot_commissioner_rs.Meshcop.Coap.Sorting.{Ascending}

abbrev pub HasNumber : CoapOption → Type 0
HasNumber o = IsU16 o.number

abbrev pub HasSize : CoapOption → Type 0
HasSize o = IsU16 (length o.value)

-- The options' bytes, which the decoder's loop reads back in front of any payload.
pub record OptionBytes (last : ℕ) (os : List CoapOption) (bytes : Bytes) : Type 0 where
  pub encoded : encode_options last os ≡ ok bytes
  pub decoded :
      (payload : Bytes) (out : List CoapOption) (fuel : ℕ)
      → length (bytes ++ marked payload) ≤ fuel
      → decode_options fuel last (bytes ++ marked payload) out ≡ ok (out ++ os, payload)

no_options :
    (last fuel : ℕ) (payload : Bytes) (out : List CoapOption)
    → length (marked payload) ≤ fuel
    → decode_options fuel last (marked payload) out ≡ ok (out ++ [], payload)
unfolding decode_options
no_options last fuel [] out h = rw (append-nil out) refl
no_options last zero (b ∷ bs) out h = absurd (omega arith)
no_options last (suc fuel) (b ∷ bs) out h = rw (append-nil out) refl

decode_options-step :
    (fuel last first : ℕ) (after : Bytes) (out : List CoapOption) (o : CoapOption) (rest : Bytes)
    → (first == 0xff) ≡ false
    → decode_option last first after ≡ ok (o, rest)
    → decode_options (suc fuel) last (first ∷ after) out
      ≡ decode_options fuel o.number rest (out ++ o ∷ [])
unfolding decode_options
decode_options-step fuel last first after out o rest n e = rw (n, e) refl

-- An option in front of others.
option_first :
    (last : ℕ) (o : CoapOption) (os : List CoapOption) (first : ℕ) (extra bytes : Bytes)
    → last ≤ o.number
    → HasNumber o
    → HeaderBytes (o.number - last) (length o.value) first extra
    → OptionBytes o.number os bytes
    → OptionBytes last (o ∷ os) ((first ∷ extra) ++ (o.value ++ bytes))
unfolding encode_options
option_first last o os first extra bytes up n h b = record {
  encoded = rw (le→ltb o.number last up, h.encoded, b.encoded) refl;
  decoded = λ payload out fuel k. read payload out fuel k;
}
  where
    same : (last + (o.number - last)) ≡ o.number
    same = omega arith

    read :
        (payload : Bytes) (out : List CoapOption) (fuel : ℕ)
        → length (((first ∷ extra) ++ (o.value ++ bytes)) ++ marked payload) ≤ fuel
        → decode_options fuel last (((first ∷ extra) ++ (o.value ++ bytes)) ++ marked payload) out
          ≡ ok (out ++ o ∷ os, payload)
    read payload out zero k = absurd (omega arith)
    read payload out (suc fuel) k =
        rw
          (
            append_assoc extra (o.value ++ bytes) (marked payload),
            append_assoc o.value bytes (marked payload),
          )
          (decode_options-step fuel last first (extra ++ (o.value ++ (bytes ++ marked payload))) out
              o (bytes ++ marked payload) h.no_marker
              (subst
                (λ number.
                  decode_option last first (extra ++ (o.value ++ (bytes ++ marked payload)))
                  ≡ ok (record { number = number; value = o.value }, bytes ++ marked payload))
                same (h.decoded last o.value (bytes ++ marked payload) refl (omega arith)))
            ∙ b.decoded payload (out ++ o ∷ []) fuel (
                omega (
                  arith,
                  length-append (extra ++ (o.value ++ bytes)) (marked payload),
                  length-append extra (o.value ++ bytes),
                  length-append o.value bytes,
                  length-append bytes (marked payload),
                ))
            ∙ ap (λ l. ok (l, payload)) (append_assoc out (o ∷ []) os))

pub options_written :
    (last : ℕ) (os : List CoapOption)
    → Ascending last os
    → All HasNumber os
    → All HasSize os
    → (bytes : Bytes) × OptionBytes last os bytes
unfolding encode_options
options_written last [] up n s = (
  [],
  record { encoded = refl; decoded = λ payload out fuel h. no_options last fuel payload out h },
)
options_written last (o ∷ os) up n s =
    let (bytes, b) = options_written o.number os up.1 n.1 s.1 in
    let (first, extra, h) =
      encode_option_header-HeaderBytes (o.number - last) (length o.value) (omega (arith, n.0))
        s.0 in
    (_, option_first last o os first extra bytes up.0 n.0 h b)

-- Options in order are refused for a value that is too long, and for nothing else.
pub encode_options-cases :
    (last : ℕ) (os : List CoapOption)
    → Ascending last os
    → All HasNumber os
    → All HasSize os ⊎ (encode_options last os ≡ err (dataset "CoAP option too long"))
unfolding encode_options
encode_options-cases last [] up n = inl tt
encode_options-cases last (o ∷ os) up n =
    let delta : IsU16 (o.number - last) = omega (arith, n.0) in
    elim (Bool-cases (ltb (length o.value) (2 ^ 16))) [
      | inr long ↦ inr (
          rw
            (
              le→ltb o.number last up.0,
              encode_option_header-long (o.number - last) (length o.value) delta (ltb→le _ _ long),
            )
            refl)
      | inl short ↦
          let (first, extra, h) =
            encode_option_header-HeaderBytes (o.number - last) (length o.value) delta
              (ltb→lt _ _ short) in
          elim (encode_options-cases o.number os up.1 n.1) [
            | inl s ↦ inl (ltb→lt _ _ short, s)
            | inr e ↦ inr (rw (le→ltb o.number last up.0, h.encoded, e) refl)
          ]
    ]

unfoldable pub first_of : CoapType → ℕ → ℕ
first_of ty len = bit_or (bit_or (1 * 2 ^ 6) (as_u8 (type_code ty * 2 ^ 4))) (as_u8 len)

first_of-sum : (ty : CoapType) (len : ℕ) → len ≤ 8 → first_of ty len ≡ 64 + type_code ty * 16 + len
unfolding first_of
first_of-sum ty len h =
    let code : type_code ty ≤ 3 = ground arith in
    let shifted : as_u8 (type_code ty * 2 ^ 4) ≡ type_code ty * 16 = omega arith in
    let short : as_u8 len ≡ len = omega arith in
    rw
      (
        shifted,
        short,
        bit_or_add 6 64 (type_code ty * 16) (omega arith) (omega arith),
        bit_or_add 4 (64 + type_code ty * 16) len (omega arith) (omega arith),
      )
      refl

-- The version, the type and the token's length are read back from the first byte.
pub record FirstByte (ty : CoapType) (len first : ℕ) : Type 0 where
  pub version : (first / 2 ^ 6 == 1) ≡ true
  pub ty_read : try_from (bit_and (first / 2 ^ 4) 0x03) ≡ ok ty
  pub len_read : bit_and first 0x0f ≡ len

pub first_of-FirstByte : (ty : CoapType) (len : ℕ) → len ≤ 8 → FirstByte ty len (first_of ty len)
unfolding try_from
first_of-FirstByte ty len h =
    let code : type_code ty ≤ 3 = ground arith in
    rw (first_of-sum ty len h) (record {
      version = ground (arith, code);
      ty_read = rw (bit_and_mask 2 ((64 + type_code ty * 16 + len) / 2 ^ 4)) (ground (arith, code));
      len_read = bit_and_mask 4 (64 + type_code ty * 16 + len) ∙ omega arith;
    })
