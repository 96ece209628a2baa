-- ===== src/Dtls/Handshake/Reassembler/Writes.antt =====
-- One fragment of a message, written into a reassembler that holds bytes of that message.
use ot_commissioner_rs.Base.{
  Result, ℕ, ◌+◌, ◌≤◌, ◌<◌, ◌≡◌, refl, ◌∙◌, ◌&&◌, Bool, true, false, not, some, [], ◌∷◌, arith, ltb,
  leb, ◌==◌, if◌then◌else◌, length, get_elem?, get_or, set, Bytes, ok,
}
use ot_commissioner_rs.Base.Indexed.{
  length-set, get_elem?-set_self, get_elem?-set_ne, get_elem?-get_or,
}
use ot_commissioner_rs.Dtls.Handshake.Reassembler.{Error, HandshakeReassembler, write_loop}

-- The buffers have the payload's length, and hold its bytes where they are marked.
pub record Agrees (payload : Bytes) (r : HandshakeReassembler) : Type 0 where
  pub bytes_len : length r.bytes ≡ length payload
  pub filled_len : length r.filled ≡ length payload
  pub right : (i : ℕ) → get_elem? r.filled i ≡ some true → get_elem? r.bytes i ≡ get_elem? payload i

-- `piece` is what the payload holds from `position` on.
abbrev pub Slice : Bytes → ℕ → Bytes → Type 0
Slice payload position [] = Unit
Slice payload position (b ∷ bs) =
    (get_elem? payload position ≡ some b) × Slice payload (position + 1) bs

abbrev pub within : ℕ → ℕ → ℕ → Bool
within start len i = leb start i && ltb i (start + len)

abbrev put : HandshakeReassembler → ℕ → ℕ → HandshakeReassembler
put r position b = record r { bytes = set r.bytes position b; filled = set r.filled position true }

put-Agrees :
    (payload : Bytes) (r : HandshakeReassembler) (position b : ℕ)
    → Agrees payload r
    → position < length payload
    → get_elem? payload position ≡ some b
    → Agrees payload (put r position b)
put-Agrees payload r position b a h e = record {
  bytes_len = length-set r.bytes position b ∙ a.bytes_len;
  filled_len = length-set r.filled position true ∙ a.filled_len;
  right = λ i k. ground (
    arith,
    get_elem?-set_self r.bytes position b,
    get_elem?-set_ne r.bytes position i b,
    get_elem?-set_ne r.filled position i true,
    a.right i,
  );
}

-- No byte is written over a different one.
no_conflict :
    (payload : Bytes) (r : HandshakeReassembler) (position b : ℕ)
    → Agrees payload r
    → position < length payload
    → get_elem? payload position ≡ some b
    → (get_or r.filled position false && not (get_or r.bytes position 0 == b)) ≡ false
no_conflict payload r position b a h e = ground (
  arith,
  a.right position,
  get_elem?-get_or r.filled position false,
  get_elem?-get_or r.bytes position 0,
)

-- Writing `bs` at `position` succeeds: the buffers still agree with the payload, the positions of
-- `bs` are marked and no other mark changes.
pub record Writes (payload : Bytes) (position : ℕ) (bs : Bytes) (r : HandshakeReassembler)
    (result : HandshakeReassembler × Result Error (Unit {0})) : Type 0 where
  pub succeeds : result.1 ≡ ok tt
  pub agrees : Agrees payload result.0
  pub same_type : result.0.message_type ≡ r.message_type
  pub same_seq : result.0.message_seq ≡ r.message_seq
  pub marks :
      (i : ℕ)
      → i < length payload
      → get_elem? result.0.filled i
        ≡ (if within position (length bs) i then some true else get_elem? r.filled i)

pub write_loop-Writes :
    (payload : Bytes) (bs : Bytes) (position : ℕ) (r : HandshakeReassembler)
    → Agrees payload r
    → Slice payload position bs
    → position + length bs ≤ length payload
    → Writes payload position bs r (write_loop position bs r)
unfolding write_loop
write_loop-Writes payload [] position r a s h = record {
  succeeds = refl;
  agrees = a;
  same_type = refl;
  same_seq = refl;
  marks = λ i k. ground arith;
}
write_loop-Writes payload (b ∷ bs) position r a s h =
    let inside : position < length payload = omega arith in
    let next = put r position b in
    let later =
      write_loop-Writes payload bs (position + 1) next
        (put-Agrees payload r position b a inside s.0) s.1 (omega arith) in
    rw (no_conflict payload r position b a inside s.0) (record {
      succeeds = later.succeeds;
      agrees = later.agrees;
      same_type = later.same_type;
      same_seq = later.same_seq;
      marks = λ i k.
          later.marks i k
          ∙ ground (
            arith,
            a.filled_len,
            get_elem?-set_self r.filled position true,
            get_elem?-set_ne r.filled position i true,
          );
    })
