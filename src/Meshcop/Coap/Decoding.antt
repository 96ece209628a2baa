-- ===== src/Meshcop/Coap/Decoding.antt =====
-- What the decoder accepts: it ends on every input, and a message that it returns can be encoded.
use ot_commissioner_rs.Base.{
  fail_if-ne-stuck, ok-ne-stuck, length-take, from_be_u16, All-drop, ◌^◌, ◌/◌, not, fail_if-eq-ok,
  false, fail_if, ◌||◌, bit_and, Bool, length-drop, Result-cases, append_assoc, bind-ne-stuck,
  bind-eq-ok, append-nil, ℕ, zero, suc, ◌+◌, ◌≤◌, ◌≡◌, ◌≢◌, sym, ap, subst, ◌∙◌, inl, inr, List, [],
  ◌∷◌, ◌++◌, arith, Bytes, IsByte, ok, stuck, length, take, drop, ltb, ◌==◌, All, Bool-cases,
}
use ot_commissioner_rs.Meshcop.Coap.{
  dataset, try_from, CoapOption, CoapMessage, encode, decode_option, decode_options, decode,
}
use ot_commissioner_rs.Meshcop.Coap.Nibbles.{
  decode_option-Taken, decode_option-ne-stuck, decode_option-shorter,
}
use ot_commissioner_rs.Meshcop.Coap.Options.{HasNumber, HasSize}
use ot_commissioner_rs.Meshcop.Coap.RoundTrip.{IsMessage, encode-cases, decode-encode-sorted}
use ot_commissioner_rs.Meshcop.Coap.Sorting.{Ascending, sorted-eq_self}

-- Options that the loop adds, the last of them above `last`.
record Grows (last : ℕ) (out result : List CoapOption) (items : List CoapOption) : Type 0 where
  split : result ≡ out ++ items
  up : Ascending last items
  numbers : All HasNumber items
  sizes : All HasSize items

no_growth : (last : ℕ) (out result : List CoapOption) → out ≡ result → Grows last out result []
no_growth last out result e = record {
  split = sym e ∙ sym (append-nil out);
  up = tt;
  numbers = tt;
  sizes = tt;
}

decode_options-Grows :
    (fuel last : ℕ) (bytes : Bytes) (out : List CoapOption) (result : List CoapOption)
    (payload : Bytes)
    → All IsByte bytes
    → decode_options fuel last bytes out ≡ ok (result, payload)
    → (items : List CoapOption) × Grows last out result items
unfolding decode_options
decode_options-Grows fuel last [] out result payload b e = ([], no_growth last out result (cc))
decode_options-Grows zero last (first ∷ after) out result payload b e = absurd (cc)
decode_options-Grows (suc fuel) last (first ∷ after) out result payload b e =
    elim (Bool-cases (first == 0xff)) [
      | inl marker ↦ ([], no_growth last out result (let k = rw marker at e in cc))
      | inr option ↦
          let ((o, rest), k, later) =
            bind-eq-ok (decode_option last first after) _ (rw option at e) in
          let t = decode_option-Taken last first after o rest b.1 k in
          let (items, a) =
            decode_options-Grows fuel o.number rest (out ++ o ∷ []) result payload t.bytes later in
          (
            o ∷ items,
            record {
              split = a.split ∙ append_assoc out (o ∷ []) items;
              up = (t.ascends, a.up);
              numbers = (t.number, a.numbers);
              sizes = (t.value, a.sizes);
            },
          )
    ]

decode_options-ne-stuck :
    (fuel last : ℕ) (bytes : Bytes) (out : List CoapOption)
    → length bytes ≤ fuel
    → decode_options fuel last bytes out ≢ stuck
unfolding decode_options
decode_options-ne-stuck fuel last [] out h = λ e. cc
decode_options-ne-stuck zero last (first ∷ after) out h = absurd (omega arith)
decode_options-ne-stuck (suc fuel) last (first ∷ after) out h = elim (Bool-cases (first == 0xff)) [
  | inl marker ↦ rw marker (λ e. cc)
  | inr option ↦
      rw option
        (elim (Result-cases (decode_option last first after)
          (decode_option-ne-stuck last first after)) [
            | inl ((o, rest), k) ↦ rw k (
                decode_options-ne-stuck fuel o.number rest (out ++ o ∷ [])
                  (omega (arith, decode_option-shorter last first after o rest k)))
            | inr (x, k) ↦ rw k (λ e. cc)
          ])
]

try_from-ne-stuck : (b : ℕ) → try_from b ≢ stuck
unfolding try_from
try_from-ne-stuck b = ground arith

-- Decoding ends on every input.
pub decode-ne-stuck : (bytes : Bytes) → decode bytes ≢ stuck
unfolding decode
decode-ne-stuck (b0 ∷ b1 ∷ b2 ∷ b3 ∷ rest) =
    let size = length-drop (bit_and b0 0x0f) rest in
    bind-ne-stuck (fail_if (not (b0 / 2 ^ 6 == 1)) (dataset "unsupported CoAP version")) _
      (fail_if-ne-stuck (not (b0 / 2 ^ 6 == 1)) _)
      (λ u.
        bind-ne-stuck
          (fail_if
            (ltb 8 (bit_and b0 15) || ltb (length (b0 ∷ b1 ∷ b2 ∷ b3 ∷ rest)) (4 + bit_and b0 15))
            (dataset "invalid CoAP token length"))
          _ (fail_if-ne-stuck (ltb 8 (bit_and b0 15) || _) _)
          (λ v.
            bind-ne-stuck (try_from (bit_and (b0 / 2 ^ 4) 0x03)) _
              (try_from-ne-stuck (bit_and (b0 / 2 ^ 4) 0x03))
              (λ ty.
                bind-ne-stuck (decode_options (length rest) 0 (drop (bit_and b0 0x0f) rest) []) _
                  (decode_options-ne-stuck (length rest) 0 _ [] (omega arith))
                  (λ body. ok-ne-stuck _))))
decode-ne-stuck _ = λ e. cc

-- A message that the encoder takes and whose options are in order.
pub record IsDecoded (m : CoapMessage) : Type 0 where
  pub message : IsMessage m
  pub ordered : Ascending 0 m.options
  pub sizes : All HasSize m.options
  pub token : length m.token ≤ 8

decode-IsDecoded :
    (bytes : Bytes) (m : CoapMessage) → All IsByte bytes → decode bytes ≡ ok m → IsDecoded m
unfolding decode
decode-IsDecoded (b0 ∷ b1 ∷ b2 ∷ b3 ∷ rest) m b e =
    let n = bit_and b0 0x0f in
    let (version, e1) = fail_if-eq-ok (not (b0 / 2 ^ 6 == 1)) _ _ e in
    let (room, e2) =
      fail_if-eq-ok (ltb 8 n || ltb (length (b0 ∷ b1 ∷ b2 ∷ b3 ∷ rest)) (4 + n)) _ _ e1 in
    let (ty, k, e3) = bind-eq-ok (try_from (bit_and (b0 / 2 ^ 4) 0x03)) _ e2 in
    let ((options, payload), d, e4) =
      bind-eq-ok (decode_options (length rest) 0 (drop n rest) []) _ e3 in
    let (items, a) =
      decode_options-Grows (length rest) 0 (drop n rest) [] options payload
        (All-drop IsByte n rest b.1.1.1.1) d in
    let same : options ≡ items = a.split in
    subst IsDecoded
      {x = record {
        ty = ty;
        code = b1;
        message_id = from_be_u16 b2 b3;
        token = take n rest;
        options = options;
        payload = payload;
      }}
      (cc)
      (record {
        message = record {
          message_id = omega (arith, b.1.1.0, b.1.1.1.0);
          numbers = rw same a.numbers;
        };
        ordered = rw same a.up;
        sizes = rw same a.sizes;
        token = omega (arith, length-take n rest, short n _ room);
      })
  where
    short : (n : ℕ) (other : Bool) → (ltb 8 n || other) ≡ false → n ≤ 8
    short n other h = ground arith
decode-IsDecoded _ m b e = absurd (cc)

-- Every message decoded from bytes has its options in order and can be encoded again, and what is
-- written is decoded to the same message.
pub encode-decode :
    (bytes : Bytes) (m : CoapMessage)
    → All IsByte bytes
    → decode bytes ≡ ok m
    → Ascending 0 m.options × (out : Bytes) × (encode m ≡ ok out) × (decode out ≡ ok m)
encode-decode bytes m b e =
    let d = decode-IsDecoded bytes m b e in
    elim (encode-cases m d.message) [
      | inl (short, sizes, (out, k)) ↦ (
        d.ordered,
        out,
        k,
        decode-encode-sorted m out d.message k
            ∙ ap (λ os. ok (record m { options = os })) (sorted-eq_self m.options d.ordered),
      )
      | inr (inl (long, k)) ↦ absurd (omega (arith, d.token))
      | inr (inr (short, large, k)) ↦ absurd (large d.sizes)
    ]
