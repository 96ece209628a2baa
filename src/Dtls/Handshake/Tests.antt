-- ===== src/Dtls/Handshake/Tests.antt =====
-- Concrete messages and fragments, and the theorems at them.
use ot_commissioner_rs.Dtls.Handshake.Transcript.{new, push as enter, Entered}
use ot_commissioner_rs.Base.{
  ◌≤◌, ◌+◌, length, ℕ, ◌≡◌, ◌⊎◌, refl, some, none, List, [], ◌∷◌, ◌++◌, ok, err, Bytes, All, arith,
}
use ot_commissioner_rs.Dtls.{crypto_format, crypto}
use ot_commissioner_rs.Dtls.Handshake.{
  write_u24, validate, encode_header, HandshakeFragment, HandshakeMessage, client_hello,
  server_hello_done, fragment, encode, transcript_bytes, encode_fragment,
}
use ot_commissioner_rs.Dtls.Handshake.Fragmentation.{IsCut, last_outcome-fragment}
use ot_commissioner_rs.Dtls.Handshake.Reassembler.{
  finish, write_loop, initialize_or_validate, empty, push,
}
use ot_commissioner_rs.Dtls.Handshake.Reassembler.Complete.{
  outcomes, last_outcome, outcomes-safe, last_outcome_complete,
}
use ot_commissioner_rs.Dtls.Handshake.Reassembler.Pieces.{IsPiece}
use ot_commissioner_rs.Dtls.Handshake.Reassembler.Writes.{Slice}
use ot_commissioner_rs.Dtls.Record.{DtlsRecord, handshake}

abbrev hello : HandshakeMessage
hello = record {
  message_type = client_hello;
  message_seq = 3;
  payload = 10 ∷ 11 ∷ 12 ∷ 13 ∷ 14 ∷ [];
}

abbrev piece : ℕ → Bytes → HandshakeFragment
piece offset bytes = record {
  header = record {
    message_type = client_hello;
    len = 5;
    message_seq = 3;
    fragment_offset = offset;
    fragment_length = length bytes;
  };
  fragment = bytes;
}

abbrev front : HandshakeFragment
front = piece 0 (10 ∷ 11 ∷ [])

abbrev middle : HandshakeFragment
middle = piece 2 (12 ∷ 13 ∷ [])

abbrev back : HandshakeFragment
back = piece 4 (14 ∷ [])

-- It overlaps both others.
abbrev overlap : HandshakeFragment
overlap = piece 1 (11 ∷ 12 ∷ 13 ∷ 14 ∷ [])

is_piece :
    (offset : ℕ) (bytes : Bytes)
    → offset + length bytes ≤ 5
    → Slice hello.payload offset bytes
    → IsPiece hello (piece offset bytes)
is_piece offset bytes h s = record {
  message_type = refl;
  message_seq = refl;
  len = refl;
  fits = h;
  slice = s;
}

front_IsPiece : IsPiece hello front
front_IsPiece = is_piece 0 (10 ∷ 11 ∷ []) (omega arith) (refl, (refl, tt))

overlap_IsPiece : IsPiece hello overlap
overlap_IsPiece =
    is_piece 1 (11 ∷ 12 ∷ 13 ∷ 14 ∷ []) (omega arith) (refl, (refl, (refl, (refl, tt))))

back_IsPiece : IsPiece hello back
back_IsPiece = is_piece 4 (14 ∷ []) (omega arith) (refl, tt)

fragment-hello : fragment hello 2 ≡ ok (front ∷ middle ∷ back ∷ [])
unfolding fragment
fragment-hello = refl

last_outcome-fragment_example :
    All (IsCut hello 2) (front ∷ middle ∷ back ∷ [])
    × (f : HandshakeFragment) × (rest : List HandshakeFragment) × (◌≡◌ {A = List HandshakeFragment}
        (front ∷ middle ∷ back ∷ [])
        (f ∷ rest))
    × (last_outcome f rest ≡ ok (some hello))
last_outcome-fragment_example =
    last_outcome-fragment hello 2 (front ∷ middle ∷ back ∷ []) (omega arith) fragment-hello

outcomes-safe_example :
    All (λ o. (o ≡ ok none) ⊎ (o ≡ ok (some hello))) (outcomes back (overlap ∷ back ∷ []))
outcomes-safe_example =
    outcomes-safe hello back (overlap ∷ back ∷ []) (omega arith)
      (back_IsPiece, (overlap_IsPiece, (back_IsPiece, tt)))

-- The pieces come last first, the one in the middle overlapping both.
last_outcome_complete_example : last_outcome overlap (front ∷ []) ≡ ok (some hello)
last_outcome_complete_example =
    last_outcome_complete hello overlap (front ∷ []) (omega arith)
      (overlap_IsPiece, (front_IsPiece, tt)) (λ i h. ground arith)

-- A byte that differs where two fragments overlap is refused.
conflict :
    (push (push empty front).0 (piece 1 (99 ∷ []))).1
    ≡ err (crypto "DTLS handshake fragment overlaps with different data")
unfolding push initialize_or_validate write_loop finish
conflict = refl

too_long :
    (push empty (record front { header = record front.header { len = 65_537 } })).1
    ≡ err (
        crypto_format "DTLS handshake message length {} exceeds the {}-byte limit"
          (65_537 ∷ 65_536 ∷ []))
unfolding push initialize_or_validate
too_long = refl

abbrev front_bytes : Bytes
front_bytes = 1 ∷ 0 ∷ 0 ∷ 5 ∷ 0 ∷ 3 ∷ 0 ∷ 0 ∷ 0 ∷ 0 ∷ 0 ∷ 2 ∷ 10 ∷ 11 ∷ []

encode_fragment-front : encode_fragment front ≡ ok front_bytes
unfolding encode_fragment encode_header validate write_u24
encode_fragment-front = refl

abbrev hello_bytes : Bytes
hello_bytes = 1 ∷ 0 ∷ 0 ∷ 5 ∷ 0 ∷ 3 ∷ 0 ∷ 0 ∷ 0 ∷ 0 ∷ 0 ∷ 5 ∷ hello.payload

encode-hello : encode hello ≡ ok hello_bytes
unfolding encode fragment encode_fragment encode_header validate write_u24
encode-hello = refl

abbrev done : HandshakeMessage
done = record { message_type = server_hello_done; message_seq = 4; payload = [] }

abbrev done_bytes : Bytes
done_bytes = 14 ∷ 0 ∷ 0 ∷ 0 ∷ 0 ∷ 4 ∷ 0 ∷ 0 ∷ 0 ∷ 0 ∷ 0 ∷ 0 ∷ []

encode-done : encode done ≡ ok done_bytes
unfolding encode fragment encode_fragment encode_header validate write_u24
encode-done = refl

abbrev carrying : Bytes → DtlsRecord
carrying bytes = record {
  header = record {
    content_type = handshake;
    version = 0xfefd;
    epoch = 0;
    sequence_number = 0;
    len = length bytes;
  };
  payload = bytes;
}

entered : Entered new (hello ∷ done ∷ []) (record { bytes = hello_bytes ++ done_bytes })
unfolding enter transcript_bytes encode_header validate write_u24
entered = (refl, (refl, refl))
