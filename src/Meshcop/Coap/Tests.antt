-- ===== src/Meshcop/Coap/Tests.antt =====
-- Concrete messages, and the theorems at them.
use ot_commissioner_rs.Base.{
  ◌==◌, ℕ, true, ◌≡◌, ◌⊎◌, ◌≤◌, ◌<◌, refl, List, [], ◌∷◌, ok, err, Bytes, All, arith, retain,
  length,
}
use ot_commissioner_rs.Errors.{dataset}
use ot_commissioner_rs.Meshcop.Coap.{
  CoapOption, CoapMessage, confirmable, sorted, encode, decode, encode_option_header,
  encode_extended_nibble, decode_option, decode_options, decode_extended_nibble, encode_options,
  try_from, empty_ack, is_empty_ack_for,
}
use ot_commissioner_rs.Meshcop.Coap.Decoding.{encode-decode}
use ot_commissioner_rs.Meshcop.Coap.Options.{HasSize}
use ot_commissioner_rs.Meshcop.Coap.RoundTrip.{encode-cases, decode-encode}
use ot_commissioner_rs.Meshcop.Coap.Sorting.{Ascending}

abbrev option : ℕ → Bytes → CoapOption
option number value = record { number = number; value = value }

-- Its options are out of order, and two have the same number.
abbrev post : CoapMessage
post = record {
  ty = confirmable;
  code = 2;
  message_id = 0x1234;
  token = 7 ∷ 8 ∷ [];
  options = option 300 (1 ∷ []) ∷ option 11 (99 ∷ []) ∷ option 11 (97 ∷ []) ∷ [];
  payload = 5 ∷ [];
}

abbrev in_order : List CoapOption
in_order = option 11 (99 ∷ []) ∷ option 11 (97 ∷ []) ∷ option 300 (1 ∷ []) ∷ []

sorted-post : sorted post.options ≡ in_order
unfolding sorted
sorted-post = refl

abbrev post_bytes : Bytes
post_bytes = 0x42 ∷ 2 ∷ 0x12 ∷ 0x34 ∷ 7 ∷ 8 ∷ 0xb1 ∷ 99 ∷ 1 ∷ 97 ∷ 0xe1 ∷ 0 ∷ 20 ∷ 1 ∷ 0xff ∷ 5 ∷ []

encode-post : encode post ≡ ok post_bytes
unfolding encode sorted encode_options encode_option_header encode_extended_nibble
encode-post = refl

decode-post : decode post_bytes ≡ ok (record post { options = in_order })
unfolding decode decode_options decode_option decode_extended_nibble try_from
decode-post = refl

decode-encode_example :
    (os : List CoapOption) × (decode post_bytes ≡ ok (record post { options = os }))
    × Ascending 0 os
    × ((n : ℕ)
        → retain (λ (p : CoapOption). p.number == n) os
          ≡ retain (λ (p : CoapOption). p.number == n) post.options)
decode-encode_example =
    decode-encode post post_bytes
      (record {
        message_id = omega arith;
        numbers = (omega arith, (omega arith, (omega arith, tt)));
      })
      encode-post

encode-cases_example :
    ((length post.token ≤ 8)
      × All HasSize post.options
      × ((bytes : Bytes) × (encode post ≡ ok bytes)))
    ⊎ ((8 < length post.token) × (encode post ≡ err (dataset "CoAP token length > 8")))
    ⊎ ((length post.token ≤ 8)
        × (¬ All HasSize post.options)
        × (encode post ≡ err (dataset "CoAP option too long")))
encode-cases_example =
    encode-cases post (record {
      message_id = omega arith;
      numbers = (omega arith, (omega arith, (omega arith, tt)));
    })

encode-decode_example :
    Ascending 0 in_order
    × (out : Bytes) × (encode (record post { options = in_order }) ≡ ok out)
    × (decode out ≡ ok (record post { options = in_order }))
encode-decode_example =
    encode-decode post_bytes (record post { options = in_order }) (omega arith) decode-post

-- The reserved nibble is refused.
reserved : decode (0x40 ∷ 2 ∷ 0 ∷ 0 ∷ 0xf0 ∷ []) ≡ err (dataset "reserved CoAP option nibble")
unfolding decode decode_options decode_option decode_extended_nibble try_from
reserved = refl

-- "/c/a"
abbrev path : Bytes
path = 47 ∷ 99 ∷ 47 ∷ 97 ∷ []

acknowledged : is_empty_ack_for (empty_ack 9) 9 ≡ true
unfolding is_empty_ack_for empty_ack
acknowledged = refl
