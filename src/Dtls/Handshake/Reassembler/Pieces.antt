-- ===== src/Dtls/Handshake/Reassembler/Pieces.antt =====
-- Pushing one fragment of a message: it is never refused, and the message comes out once every
-- position is marked.
use ot_commissioner_rs.Base.{
  ltb→le, ltb→lt, ltb, ℕ, ◌+◌, ◌≤◌, ◌<◌, ◌≡◌, refl, sym, ◌∙◌, Bool, true, false, some, none, Option,
  arith, if◌then◌else◌, length, get_elem?, Result, ok, Bool-cases, inl, inr, le→ltb, replicate,
  length-replicate,
}
use ot_commissioner_rs.Base.Indexed.{
  all_true, all_true-get_elem?, get_elem?_ext, get_elem?-beyond, get_elem?-replicate_ne,
}
use ot_commissioner_rs.Dtls.{Error}
use ot_commissioner_rs.Dtls.Handshake.{HandshakeFragment, HandshakeMessage}
use ot_commissioner_rs.Dtls.Handshake.Reassembler.{
  HandshakeReassembler, empty, initialize_or_validate, write_loop, completed, finish, written,
  admitted, push, max_handshake_message_len,
}
use ot_commissioner_rs.Dtls.Handshake.Reassembler.Writes.{Agrees, Slice, within, write_loop-Writes}

-- The fragment `f` is cut from the message `m`.
pub record IsPiece (m : HandshakeMessage) (f : HandshakeFragment) : Type 0 where
  pub message_type : f.header.message_type ≡ m.message_type
  pub message_seq : f.header.message_seq ≡ m.message_seq
  pub len : f.header.len ≡ length m.payload
  pub fits : f.header.fragment_offset + length f.fragment ≤ length m.payload
  pub slice : Slice m.payload f.header.fragment_offset f.fragment

-- The reassembler holds bytes of `m`.
pub record Holds (m : HandshakeMessage) (r : HandshakeReassembler) : Type 0 where
  pub agrees : Agrees m.payload r
  pub message_type : r.message_type ≡ some m.message_type
  pub message_seq : r.message_seq ≡ some m.message_seq

abbrev pub covers : HandshakeFragment → ℕ → Bool
covers f i = within f.header.fragment_offset (length f.fragment) i

-- The outcome of pushing `f` where the marks were those of `r`.
pub record Pushed (m : HandshakeMessage) (f : HandshakeFragment) (r : HandshakeReassembler)
    (result : HandshakeReassembler × Result Error (Option HandshakeMessage)) : Type 0 where
  pub holds : Holds m result.0
  pub answer : result.1 ≡ (if all_true result.0.filled then ok (some m) else ok none)
  pub marks :
      (i : ℕ)
      → i < length m.payload
      → get_elem? result.0.filled i ≡ (if covers f i then some true else get_elem? r.filled i)

complete_bytes :
    (m : HandshakeMessage) (r : HandshakeReassembler)
    → Agrees m.payload r
    → all_true r.filled ≡ true
    → r.bytes ≡ m.payload
complete_bytes m r a full = get_elem?_ext r.bytes m.payload same
  where
    same : (i : ℕ) → get_elem? r.bytes i ≡ get_elem? m.payload i
    same i = elim (Bool-cases (ltb i (length m.payload))) [
      | inl h ↦
          a.right i (all_true-get_elem? r.filled i full (omega (arith, a.filled_len, ltb→lt i _ h)))
      | inr h ↦
          get_elem?-beyond r.bytes i (omega (arith, a.bytes_len, ltb→le i _ h))
          ∙ sym (get_elem?-beyond m.payload i (ltb→le i _ h))
    ]

finish_lem :
    (m : HandshakeMessage) (r : HandshakeReassembler)
    → Holds m r
    → finish r ≡ (if all_true r.filled then ok (some m) else ok none)
unfolding finish completed
finish_lem m r h = elim (Bool-cases (all_true r.filled)) [
  | inl full ↦
      rw full (ground (arith, h.message_type, h.message_seq, complete_bytes m r h.agrees full))
  | inr more ↦ rw more refl
]

written_ok :
    (p : HandshakeReassembler × Result Error (Unit {0}))
    → p.1 ≡ ok tt
    → written p ≡ (p.0, finish p.0)
unfolding written
written_ok p e = ground arith

same_message :
    (m : HandshakeMessage) (r : HandshakeReassembler) (f : HandshakeFragment)
    → Holds m r
    → IsPiece m f
    → initialize_or_validate r f.header ≡ (r, ok tt)
unfolding initialize_or_validate
same_message m r f h p = ground arith

admitted-Pushed :
    (m : HandshakeMessage) (r : HandshakeReassembler) (f : HandshakeFragment)
    → Holds m r
    → IsPiece m f
    → Pushed m f r (admitted f (r, ok tt))
unfolding admitted
admitted-Pushed m r f h p =
    let w =
      write_loop-Writes m.payload f.fragment f.header.fragment_offset r h.agrees p.slice p.fits in
    let held : Holds m (write_loop f.header.fragment_offset f.fragment r).0 = record {
      agrees = w.agrees;
      message_type = w.same_type ∙ h.message_type;
      message_seq = w.same_seq ∙ h.message_seq;
    } in
    let room =
      le→ltb (length r.bytes) (f.header.fragment_offset + length f.fragment)
        (omega (arith, h.agrees.bytes_len, p.fits)) in
    rw (room, written_ok (write_loop f.header.fragment_offset f.fragment r) w.succeeds)
      (record {
        holds = held;
        answer = finish_lem m (write_loop f.header.fragment_offset f.fragment r).0 held;
        marks = w.marks;
      })

-- A further fragment of the message.
pub push-Pushed :
    (m : HandshakeMessage) (r : HandshakeReassembler) (f : HandshakeFragment)
    → Holds m r
    → IsPiece m f
    → Pushed m f r (push r f)
unfolding push
push-Pushed m r f h p = rw (same_message m r f h p) (admitted-Pushed m r f h p)

abbrev pub blank : HandshakeMessage → HandshakeReassembler
blank m = record {
  message_type = some m.message_type;
  message_seq = some m.message_seq;
  bytes = replicate (length m.payload) 0;
  filled = replicate (length m.payload) false;
}

blank-Holds : (m : HandshakeMessage) → Holds m (blank m)
blank-Holds m = record {
  agrees = record {
    bytes_len = length-replicate (length m.payload) 0;
    filled_len = length-replicate (length m.payload) false;
    right = λ i e. absurd (get_elem?-replicate_ne (length m.payload) i e);
  };
  message_type = refl;
  message_seq = refl;
}

first_message :
    (m : HandshakeMessage) (f : HandshakeFragment)
    → length m.payload ≤ max_handshake_message_len
    → IsPiece m f
    → initialize_or_validate empty f.header ≡ (blank m, ok tt)
unfolding initialize_or_validate
first_message m f h p = ground arith

-- The first fragment of a message of at most 64 KiB.
pub push_first-Pushed :
    (m : HandshakeMessage) (f : HandshakeFragment)
    → length m.payload ≤ max_handshake_message_len
    → IsPiece m f
    → Pushed m f (blank m) (push empty f)
unfolding push
push_first-Pushed m f h p =
    rw (first_message m f h p) (admitted-Pushed m (blank m) f (blank-Holds m) p)
