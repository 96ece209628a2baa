-- ===== src/Lib.antt =====
-- ot-commissioner-rs: an external commissioner for Thread networks, in Rust.
--
-- The crate ot-commissioner-rs speaks the mesh commissioning protocol to a border agent: CoAP messages
-- that carry TLVs, over a DTLS 1.2 session with the cipher suite TLS_ECJPAKE_WITH_AES_128_CCM_8, which
-- the crate thread-dtls implements. What is modelled, by file:
--
--   * Tlv.antt: the TLV codec of crates/ot-commissioner-rs/src/tlv.rs and wire.rs. `parse_one`,
--     `encode_header`, `TlvSet::parse`, `encode`, `push`, `last_value` and `set_last` have their names.
--     Tlv/RoundTrip, Tlv/Parsing and Tlv/Values hold the proofs.
--   * Dtls.antt: the error type of crates/thread-dtls/src/error.rs.
--   * Dtls/Record.antt: crates/thread-dtls/src/record.rs. `RecordHeader::parse` is `parse_header`, the
--     loop body of `DtlsRecord::parse_datagram` is `parse_record`.
--   * Dtls/Protection.antt: `dtls_ccm_nonce` and `AesCcm8` of ccm.rs, and record_protection.rs, whose
--     two functions are `protect` and `open_record`. The cipher is the parameter `Aead`.
--   * Dtls/Handshake.antt: handshake.rs: headers, fragments, messages, `fragment`. Dtls/Handshake/Readers.antt has the readers of whole messages,
--     Dtls/Handshake/Transcript.antt `HandshakeTranscript`, and Dtls/Handshake/Reassembler.antt
--     `HandshakeReassembler`, whose `push` gives the state it leaves and its result.
--   * Errors.antt: the error type of crates/ot-commissioner-rs/src/error.rs.
--   * Meshcop/Coap.antt: crates/ot-commissioner-rs/src/meshcop/coap.rs, less the Uri-Path, which is in
--     Meshcop/Coap/UriPath.antt. The sort of the options is `sorted`, the loop over them
--     `encode_options`, the loop of `decode` is `decode_options`, and one round of it `decode_option`.
--   * Dataset.antt: crates/ot-commissioner-rs/src/dataset.rs: `Dataset`, with the values of single TLVs
--     in Dataset/Values.antt (`Channel::parse` is `parse_channel`, `to_value` is `channel_value`, and
--     so on) and channel masks in Dataset/ChannelMask.antt. A string is its UTF-8 bytes.
--   * Meshcop/Constants.antt, Types.antt, Flags.antt, Builders.antt and Parsers.antt: the files of those
--     names in crates/ot-commissioner-rs/src/meshcop, and util.rs. The builders and the parsers have
--     the source's names; the branches of `parse_notification` are functions of their own.
--   * Commissioner/Joiners.antt: of crates/ot-commissioner-rs/src/commissioner/joiner.rs the table of
--     enabled joiners and `JoinerFinalizeInfo`.
--   * Dtls/Hello.antt: crates/thread-dtls/src/hello.rs and constants.rs, with the cursor in
--     Dtls/Cursor.antt. `ClientHello`, `ServerHello` and `HelloVerifyRequest` have their operations in
--     Dtls/Hello/Client.antt, Server.antt and Verify.antt, `DtlsClientHelloState` in
--     Dtls/Hello/State.antt.
--   * Meshcop/Diag.antt: crates/ot-commissioner-rs/src/meshcop/diag/model.rs; decode.rs is in
--     Meshcop/Diag/Fields.antt (single values), Network.antt (network data, with `NetworkDataTlvIter`
--     as `next_tlv`) and Decode.antt (`NetDiagData::decode`).
--   * Dtls/KeySchedule.antt: crates/thread-dtls/src/key_schedule.rs, over a MAC as the parameter `Mac`.
--   * Dtls/Replay.antt, Dtls/Session.antt and Dtls/Session/Io.antt: crates/thread-dtls/src/driver.rs.
--     `DtlsReplayWindow` is in Replay; `SessionState`, `recv_records` and `recv_application_data` in
--     Session; `send_records`, `recv_with_timeout` and `delay_duration` in Io. The transport and the
--     timer are events: a list of what each receive, or each poll, gives. A list that ends before the
--     loop does leaves it waiting, which is `stuck` there. The socket addresses are numbers. `delays`
--     has the nanoseconds as fuel, of which each round takes at least one.
--   * Dtls/EcJpake.antt: crates/thread-dtls/src/ecjpake. Curve.antt has P-256 and SHA-256 as the
--     parameter `Curve`, with the group laws and the encodings that the crates document, and the helpers
--     of mod.rs; Schnorr.antt is schnorr.rs, Party.antt `EcJpakeParty` of mod.rs, Codec.antt codec.rs. A
--     generator of random numbers is the list of the scalars that it draws; an operation that draws
--     gives the list that it leaves, and `stuck` where the list is too short.
--     Key.antt has the shared point of RFC 8236, and Agreement.antt puts the two sides together.
--   * Dtls/Thread.antt: the handshake states of crates/thread-dtls: Thread/Client.antt is
--     thread_handshake.rs, Thread/Server.antt thread_server_handshake.rs, Thread/Cookie.antt its cookie
--     generator. The part of a method ahead of its changes to the state is a function of its own
--     (`read_...`, `make_...`, `check_...`); `verify_data_of` is the transcript's
--     `finished_verify_data`. Thread/Agreement.antt and Thread/Finished.antt put the two sides
--     together, on top of the hellos, EC J-PAKE, its codec, the key schedule and the transcript.
--   * Base.antt: what they share. Base/Loop has the loop that every decoder of a sequence is, over any
--     step, with its laws; Base/Framed has items made of a header and a payload.
--
-- Bytes are a list of native numbers; where a theorem needs them below 256 it says so. A fallible
-- function gives a `Result` with the source's error, or `stuck` where a loop runs out of fuel. The
-- fuel is the number of bytes at hand, and each step takes at least one, which the termination
-- theorems state as the absence of `stuck`. Integers of w bits are reduced where the source narrows.
--
-- Not modelled: the sockets and the async sessions, the flights of client_driver.rs and server_driver.rs, the
-- commissioner's client, the network diagnostics tool and the command line, the elliptic-curve
-- arithmetic, the hashes and the ciphers (external crates), the traces.
mod Base
pub mod Tlv
pub mod Dtls
pub mod Errors
pub mod Dataset
pub mod Meshcop
pub mod Commissioner
