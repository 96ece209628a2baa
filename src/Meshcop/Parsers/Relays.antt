-- ===== src/Meshcop/Parsers/Relays.antt =====
-- What the parsers read in the payloads that the builders assemble.
use ot_commissioner_rs.Base.{
  fail_if-eq-ok, append-nil, subst, find, Bool-cases, inl, inr, ℕ, ◌≡◌, refl, true, not, Option,
  none, some, List, [], ◌∷◌, ◌++◌, Bytes, Result, ok, IsU16, arith, ◌==◌, length, to_be_u16,
  from_be-to_be_u16, bind-eq-ok, Bool, if◌then◌else◌,
}
use ot_commissioner_rs.Base.Utf8.{is_utf8, utf8_from, lead}
use ot_commissioner_rs.Dataset.{read_array}
use ot_commissioner_rs.Errors.{Error}
use ot_commissioner_rs.Meshcop.Builders.{
  append_kek, append_tlv, relay_tx_request_with_kek, udp_tx_request, keep_alive_request,
}
use ot_commissioner_rs.Meshcop.Builders.Payloads.{
  IsPayload, nil-IsPayload, append_tlv-IsPayload, parse-IsPayload,
}
use ot_commissioner_rs.Meshcop.Coap.{CoapMessage}
use ot_commissioner_rs.Meshcop.Coap.UriPath.{trimmed, uri_path}
use ot_commissioner_rs.Meshcop.Coap.UriPath.Paths.{post_request-payload}
use ot_commissioner_rs.Meshcop.Constants.{
  tlv_joiner_router_kek, tlv_joiner_udp_port, tlv_joiner_router_locator, tlv_joiner_iid,
  tlv_joiner_dtls_encapsulation, uri_relay_rx, uri_relay_tx, uri_udp_rx, uri_udp_tx, uri_keep_alive,
  default_mm_port,
}
use ot_commissioner_rs.Meshcop.Parsers.{
  same_string, required_tlv, relayed, parse_udp_rx, parse_state, parse_notification,
}
use ot_commissioner_rs.Meshcop.Types.{from_wire, relay_rx, accept, reject}
use ot_commissioner_rs.Tlv.{last_value, read_u16, TlvEntry}

utf8_paths :
    (is_utf8 uri_keep_alive ≡ true) × (is_utf8 uri_udp_tx ≡ true) × (is_utf8 uri_relay_tx ≡ true)
unfolding utf8_from lead
utf8_paths = (refl, refl, refl)

-- The State TLV of a keep-alive says whether the commissioner stays.
pub parse_state-keep_alive_request :
    (message_id : ℕ) (token : Bytes) (session_id : ℕ) (keep_alive : Bool) (m : CoapMessage)
    → keep_alive_request message_id token session_id keep_alive ≡ ok m
    → (parse_state m.payload ≡ ok (some (if keep_alive then accept else reject)))
      × (uri_path m ≡ ok (some uri_keep_alive))
unfolding keep_alive_request parse_state last_value find from_wire trimmed
parse_state-keep_alive_request message_id token session_id keep_alive m h =
    let (one, h1, k1) = bind-eq-ok (append_tlv [] _ _) _ h in
    let (two, h2, k2) = bind-eq-ok (append_tlv one _ _) _ k1 in
    let p1 = append_tlv-IsPayload [] _ _ one [] nil-IsPayload h1 in
    let p2 = append_tlv-IsPayload one _ _ two _ p1 h2 in
    let (same, path) = post_request-payload _ _ _ _ two m utf8_paths.0 k2 in
    (
      rw (same, parse-IsPayload two _ p2)
          (elim (Bool-cases keep_alive) [ inl e ↦ rw e refl | inr e ↦ rw e refl ]),
      path,
    )

-- A message at the resource of the border agent's answers, with the payload of a proxied request, is
-- read as the datagram that the request carries.
pub parse_udp_rx-udp_tx_request :
    (message_id : ℕ) (token destination : Bytes) (destination_port : ℕ) (inner : Bytes)
    (m n : CoapMessage)
    → length destination ≡ 16
    → IsU16 destination_port
    → udp_tx_request message_id token destination destination_port inner ≡ ok m
    → n.payload ≡ m.payload
    → uri_path n ≡ ok (some uri_udp_rx)
    → parse_udp_rx n
      ≡ ok (
          some (record {
            source_address = destination;
            source_port = default_mm_port;
            destination_port = destination_port;
            payload = inner;
          }))
unfolding udp_tx_request parse_udp_rx required_tlv last_value find same_string
parse_udp_rx-udp_tx_request message_id token destination destination_port inner m n size port h
      carried at_rx =
    let (one, h1, k1) = bind-eq-ok (append_tlv [] _ _) _ h in
    let (two, h2, k2) = bind-eq-ok (append_tlv one _ _) _ k1 in
    let p1 = append_tlv-IsPayload [] _ _ one [] nil-IsPayload h1 in
    let p2 = append_tlv-IsPayload one _ _ two _ p1 h2 in
    let (same, path) = post_request-payload _ _ _ _ two m utf8_paths.1 k2 in
    rw
      (
        at_rx,
        carried,
        same,
        parse-IsPayload two _ p2,
        size,
        from_be-to_be_u16 destination_port port,
      )
      refl

abbrev kek_entries : Option Bytes → List TlvEntry
kek_entries none = []
kek_entries (some kek) = record { ty = tlv_joiner_router_kek; value = kek } ∷ []

abbrev relay_entries : ℕ → ℕ → Bytes → Bytes → List TlvEntry
relay_entries port locator iid payload =
    record { ty = tlv_joiner_udp_port; value = to_be_u16 port }
    ∷ record { ty = tlv_joiner_router_locator; value = to_be_u16 locator }
    ∷ record { ty = tlv_joiner_iid; value = iid }
    ∷ record { ty = tlv_joiner_dtls_encapsulation; value = payload }
    ∷ []

append_kek-IsPayload :
    (out : Bytes) (kek : Option Bytes) (bytes : Bytes) (es : List TlvEntry)
    → IsPayload out es
    → append_kek out kek ≡ ok bytes
    → IsPayload bytes (es ++ kek_entries kek)
unfolding append_kek
append_kek-IsPayload out none bytes es p h = rw append-nil (subst (λ b. IsPayload b es) (cc) p)
append_kek-IsPayload out (some kek) bytes es p h = append_tlv-IsPayload out _ kek bytes es p h

relay_tx_request-IsPayload :
    (message_id : ℕ) (token iid : Bytes) (port locator : ℕ) (payload : Bytes) (kek : Option Bytes)
    (m : CoapMessage)
    → relay_tx_request_with_kek message_id token iid port locator payload kek ≡ ok m
    → (length iid ≡ 8)
      × IsPayload m.payload (relay_entries port locator iid payload ++ kek_entries kek)
unfolding relay_tx_request_with_kek
relay_tx_request-IsPayload message_id token iid port locator payload kek m h =
    let (eight, h0) = fail_if-eq-ok (not (length iid == 8)) _ _ h in
    let (one, h1, k1) = bind-eq-ok (append_tlv [] _ _) _ h0 in
    let (two, h2, k2) = bind-eq-ok (append_tlv one _ _) _ k1 in
    let (three, h3, k3) = bind-eq-ok (append_tlv two _ _) _ k2 in
    let (four, h4, k4) = bind-eq-ok (append_tlv three _ _) _ k3 in
    let (body, h5, k5) = bind-eq-ok (append_kek four kek) _ k4 in
    let p1 = append_tlv-IsPayload [] _ _ one [] nil-IsPayload h1 in
    let p2 = append_tlv-IsPayload one _ _ two _ p1 h2 in
    let p3 = append_tlv-IsPayload two _ _ three _ p2 h3 in
    let p4 = append_tlv-IsPayload three _ _ four _ p3 h4 in
    let p5 = append_kek-IsPayload four kek body _ p4 h5 in
    let (same, path) = post_request-payload _ _ _ _ body m utf8_paths.2 k5 in
    (ground arith, rw same p5)

-- A relayed message is read back with the port, the locator, the identifier and the records that it
-- was built with, whatever the key behind them.
pub parse_notification-relay_tx_request :
    {D : Type 0} (decode : Bytes → Result Error D) (message_id : ℕ) (token iid : Bytes)
    (port locator : ℕ) (payload : Bytes) (kek : Option Bytes) (m n : CoapMessage)
    → IsU16 port
    → IsU16 locator
    → relay_tx_request_with_kek message_id token iid port locator payload kek ≡ ok m
    → n.payload ≡ m.payload
    → uri_path n ≡ ok (some uri_relay_rx)
    → parse_notification decode n ≡ ok (some (relay_rx port locator iid payload))
unfolding parse_notification relayed required_tlv read_u16 read_array last_value find same_string
parse_notification-relay_tx_request decode message_id token iid port locator payload none m n hp hl
      h carried at_rx =
    let (eight, p) =
      relay_tx_request-IsPayload message_id token iid port locator payload none m h in
    rw
      (
        at_rx,
        carried,
        parse-IsPayload m.payload _ p,
        from_be-to_be_u16 port hp,
        from_be-to_be_u16 locator hl,
        eight,
      )
      refl
parse_notification-relay_tx_request decode message_id token iid port locator payload (some kek) m n
      hp hl h carried at_rx =
    let (eight, p) =
      relay_tx_request-IsPayload message_id token iid port locator payload (some kek) m h in
    rw
      (
        at_rx,
        carried,
        parse-IsPayload m.payload _ p,
        from_be-to_be_u16 port hp,
        from_be-to_be_u16 locator hl,
        eight,
      )
      refl
