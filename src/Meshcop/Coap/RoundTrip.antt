-- ===== src/Meshcop/Coap/RoundTrip.antt =====
-- Decoding what was encoded, when encoding fails, and encoding what was decoded.
use ot_commissioner_rs.Base.{
  ◌==◌, retain, ℕ, List, from_be-to_be_u16, take-length-append, drop-length-append, ltb→le,
  length-append, bind-eq-ok, ltb→lt, le→ltb, fail_if-eq-ok, Bool-cases, to_be_u16, ◌+◌, ◌≤◌, ◌<◌,
  ◌≡◌, refl, ◌⊎◌, inl, inr, [], ◌∷◌, ◌++◌, arith, Bytes, IsU16, ok, err, length, ltb, All,
}
use ot_commissioner_rs.Errors.{dataset}
use ot_commissioner_rs.Meshcop.Coap.{
  CoapMessage, CoapOption, encode_options, marked, sorted, encode, decode,
}
use ot_commissioner_rs.Meshcop.Coap.Options.{
  HasNumber, HasSize, OptionBytes, options_written, encode_options-cases, first_of,
  first_of-FirstByte,
}
use ot_commissioner_rs.Meshcop.Coap.Sorting.{Ascending, sorted-retain, sorted-All, All-sorted}

-- The fields have the widths of the source's types.
pub record IsMessage (m : CoapMessage) : Type 0 where
  pub message_id : IsU16 m.message_id
  pub numbers : All HasNumber m.options

abbrev message_bytes : CoapMessage → Bytes → Bytes
message_bytes m options =
    first_of m.ty (length m.token)
    ∷ (m.code ∷ (to_be_u16 m.message_id ++ (m.token ++ (options ++ marked m.payload))))

sorted_written :
    (m : CoapMessage)
    → IsMessage m
    → All HasSize m.options
    → (options : Bytes) × OptionBytes 0 (sorted m.options) options
sorted_written m w s =
    options_written 0 (sorted m.options) (sorted-retain m.options).0
      (sorted-All HasNumber m.options w.numbers) (sorted-All HasSize m.options s)

-- Encoding succeeds exactly when the token has at most 8 bytes and every option's value at most 65535;
-- the token is tested first.
pub encode-cases :
    (m : CoapMessage)
    → IsMessage m
    → ((length m.token ≤ 8) × All HasSize m.options × ((bytes : Bytes) × (encode m ≡ ok bytes)))
      ⊎ ((8 < length m.token) × (encode m ≡ err (dataset "CoAP token length > 8")))
      ⊎ ((length m.token ≤ 8)
          × (¬ All HasSize m.options)
          × (encode m ≡ err (dataset "CoAP option too long")))
unfolding encode first_of
encode-cases m w = elim (Bool-cases (ltb 8 (length m.token))) [
  | inl long ↦ inr (inl (ltb→lt _ _ long, rw long refl))
  | inr short ↦
      elim (encode_options-cases 0 (sorted m.options) (sorted-retain m.options).0
        (sorted-All HasNumber m.options w.numbers)) [
          | inl s ↦
              let sizes = All-sorted HasSize m.options s in
              let (options, b) = sorted_written m w sizes in
              inl (ltb→le _ _ short, sizes, (message_bytes m options, rw (short, b.encoded) refl))
          | inr e ↦ inr (
              inr (
                ltb→le _ _ short,
                λ sizes. let (options, b) = sorted_written m w sizes in absurd (cc (b.encoded)),
                rw (short, e) refl,
              ))
        ]
]

encode-bytes :
    (m : CoapMessage) (bytes : Bytes)
    → IsMessage m
    → encode m ≡ ok bytes
    → (length m.token ≤ 8)
      × (options : Bytes) × OptionBytes 0 (sorted m.options) options
      × (bytes ≡ message_bytes m options)
unfolding encode first_of
encode-bytes m bytes w e =
    let (short, e1) = fail_if-eq-ok (ltb 8 (length m.token)) _ _ e in
    let (options, k, e2) = bind-eq-ok (encode_options 0 (sorted m.options)) _ e1 in
    elim (encode_options-cases 0 (sorted m.options) (sorted-retain m.options).0
      (sorted-All HasNumber m.options w.numbers)) [
        | inr long ↦ absurd (cc)
        | inl s ↦
            let (written, b) = sorted_written m w (All-sorted HasSize m.options s) in
            (ltb→le _ _ short, written, b, cc (b.encoded))
      ]

decode-message_bytes :
    (m : CoapMessage) (options : Bytes)
    → IsMessage m
    → length m.token ≤ 8
    → OptionBytes 0 (sorted m.options) options
    → decode (message_bytes m options) ≡ ok (record m { options = sorted m.options })
unfolding decode
decode-message_bytes m options w short b =
    let f = first_of-FirstByte m.ty (length m.token) short in
    let body = options ++ marked m.payload in
    rw
      (
        f.version,
        f.len_read,
        le→ltb 8 (length m.token) short,
        le→ltb (length (message_bytes m options)) (4 + length m.token)
            (omega (arith, length-append m.token body)),
        f.ty_read,
        drop-length-append m.token body,
        b.decoded m.payload [] (length (m.token ++ body))
            (omega (arith, length-append m.token body)),
        take-length-append m.token body,
        from_be-to_be_u16 m.message_id w.message_id,
      )
      refl

pub decode-encode-sorted :
    (m : CoapMessage) (bytes : Bytes)
    → IsMessage m
    → encode m ≡ ok bytes
    → decode bytes ≡ ok (record m { options = sorted m.options })
decode-encode-sorted m bytes w e =
    let (short, options, b, same) = encode-bytes m bytes w e in
    rw same (decode-message_bytes m options w short b)

-- Decoding what was encoded of a message with fields of the source's widths gives the message back, but
-- for the order of its options: these come by ascending number, and those of each number are the
-- message's of that number, none lost, none added, and in the message's order.
pub decode-encode :
    (m : CoapMessage) (bytes : Bytes)
    → IsMessage m
    → encode m ≡ ok bytes
    → (os : List CoapOption) × (decode bytes ≡ ok (record m { options = os }))
      × Ascending 0 os
      × ((n : ℕ)
          → retain (λ (p : CoapOption). p.number == n) os
            ≡ retain (λ (p : CoapOption). p.number == n) m.options)
decode-encode m bytes w e =
    let (ascending, kept) = sorted-retain m.options in
    (sorted m.options, decode-encode-sorted m bytes w e, ascending, kept)
