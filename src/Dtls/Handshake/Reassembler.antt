-- ===== src/Dtls/Handshake/Reassembler.antt =====
-- `HandshakeReassembler` of crates/thread-dtls/src/handshake.rs. A method returns the state that it
-- leaves, also when it fails, and its result.
pub mod Writes
pub mod Pieces
pub mod Complete
use ot_commissioner_rs.Base.{
  ◌*◌, ℕ, ◌+◌, Bool, true, false, not, ◌&&◌, Option, none, some, List, [], ◌∷◌, ltb, ◌==◌,
  if◌then◌else◌, length, get_or, set, replicate, Bytes, Result, ok, err, stuck, ◌>>=◌, ok_or,
}
use ot_commissioner_rs.Base.Indexed.{all_true}
use ot_commissioner_rs.Dtls.{Error, crypto, crypto_format}
use ot_commissioner_rs.Dtls.Handshake.{
  HandshakeType, HandshakeHeader, HandshakeFragment, HandshakeMessage, same_type,
}

abbrev pub max_handshake_message_len : ℕ
max_handshake_message_len = 64 * 1024

pub record HandshakeReassembler : Type 0 where
  pub message_type : Option HandshakeType
  pub message_seq : Option ℕ
  pub bytes : Bytes
  pub filled : List Bool

-- `HandshakeReassembler::default`
abbrev pub empty : HandshakeReassembler
empty = record { message_type = none; message_seq = none; bytes = []; filled = [] }

-- The match of `initialize_or_validate` on the two fields.
admit :
    Option HandshakeType
    → Option ℕ
    → HandshakeReassembler
    → HandshakeHeader
    → HandshakeReassembler × Result Error (Unit {0})
admit none none r h =
    if ltb max_handshake_message_len h.len
    then (
      r,
      err (
          crypto_format "DTLS handshake message length {} exceeds the {}-byte limit"
            (h.len ∷ max_handshake_message_len ∷ [])),
    )
    else (
      record {
        message_type = some h.message_type;
        message_seq = some h.message_seq;
        bytes = replicate h.len 0;
        filled = replicate h.len false;
      },
      ok tt,
    )
admit (some t) (some s) r h =
    if same_type t h.message_type && (s == h.message_seq && length r.bytes == h.len)
    then (r, ok tt)
    else (r, err (crypto "DTLS handshake fragment metadata mismatch"))
admit (some t) none r h = (r, err (crypto "DTLS handshake fragment metadata mismatch"))
admit none (some s) r h = (r, err (crypto "DTLS handshake fragment metadata mismatch"))

unfoldable pub initialize_or_validate :
    HandshakeReassembler → HandshakeHeader → HandshakeReassembler × Result Error (Unit {0})
unfolding admit
initialize_or_validate r h = admit r.message_type r.message_seq r h

-- The loop over the fragment's bytes from `position` on. The caller has checked that the positions
-- are in range, so no index is out of bounds.
unfoldable pub write_loop :
    ℕ → Bytes → HandshakeReassembler → HandshakeReassembler × Result Error (Unit {0})
write_loop position [] r = (r, ok tt)
write_loop position (b ∷ bs) r =
    let rest =
      write_loop (position + 1) bs
        (record r { bytes = set r.bytes position b; filled = set r.filled position true }) in
    if get_or r.filled position false && not (get_or r.bytes position 0 == b)
    then (r, err (crypto "DTLS handshake fragment overlaps with different data"))
    else rest

completed : HandshakeReassembler → Result Error (Option HandshakeMessage)
completed r = do
  t ← ok_or r.message_type (crypto "missing handshake type")
  s ← ok_or r.message_seq (crypto "missing handshake sequence")
  ok (some (record { message_type = t; message_seq = s; payload = r.bytes }))

-- What is returned once a fragment is written.
unfoldable pub finish : HandshakeReassembler → Result Error (Option HandshakeMessage)
unfolding completed
finish r = if all_true r.filled then completed r else ok none

written :
    HandshakeReassembler × Result Error (Unit {0})
    → HandshakeReassembler × Result Error (Option HandshakeMessage)
written (r, ok u) = (r, finish r)
written (r, err e) = (r, err e)
written (r, stuck) = (r, stuck)

-- `push` behind its first line.
admitted :
    HandshakeFragment
    → HandshakeReassembler × Result Error (Unit {0})
    → HandshakeReassembler × Result Error (Option HandshakeMessage)
unfolding written
admitted f (r, ok u) =
    if ltb (length r.bytes) (f.header.fragment_offset + length f.fragment)
    then (r, err (crypto "DTLS handshake fragment exceeds message length"))
    else written (write_loop f.header.fragment_offset f.fragment r)
admitted f (r, err e) = (r, err e)
admitted f (r, stuck) = (r, stuck)

unfoldable pub push :
    HandshakeReassembler
    → HandshakeFragment
    → HandshakeReassembler × Result Error (Option HandshakeMessage)
unfolding admitted
push r f = admitted f (initialize_or_validate r f.header)
