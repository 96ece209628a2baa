-- ===== src/Meshcop/Diag/Unknown.antt =====
-- TLVs of a type that the decoder does not know change nothing.
use ot_commissioner_rs.Base.{
  refl, inr, inl, Bool-cases, fun_ext, ap, ◌>>=◌, sym, arith, ok, false, ltb, ℕ, Bool, ◌||◌, ◌==◌,
  ◌≡◌, List, [], ◌∷◌, Bytes, retain,
}
use ot_commissioner_rs.Meshcop.Diag.{NetDiagData, empty}
use ot_commissioner_rs.Meshcop.Diag.Decode.{
  entry_high, entry_mid, decode_entry, decode_entries, decode,
}
use ot_commissioner_rs.Tlv.{TlvEntry, TlvSet, encode}
use ot_commissioner_rs.Tlv.RoundTrip.{parse-encode}

-- The types that are decoded.
abbrev pub is_known : ℕ → Bool
is_known ty =
    ltb ty 10
    || (ty == 14 || (ty == 15 || (ty == 16 || (ty == 17 || (ty == 18 || (ty == 23 || ty == 30))))))

decode_entry-unknown :
    (ty : ℕ) (value : Bytes) (out : NetDiagData)
    → is_known ty ≡ false
    → decode_entry ty value out ≡ ok out
unfolding decode_entry entry_mid entry_high
decode_entry-unknown ty value out h = ground arith

decode_entries-retain :
    (es : List TlvEntry) (out : NetDiagData)
    → decode_entries (retain (λ (e : TlvEntry). is_known e.ty) es) out ≡ decode_entries es out
unfolding decode_entries retain
decode_entries-retain [] out = refl
decode_entries-retain (e ∷ es) out = elim (Bool-cases (is_known e.ty)) [
  | inl known ↦
      rw known (ap (λ f. decode_entry e.ty e.value out >>= f) (fun_ext (decode_entries-retain es)))
  | inr unknown ↦
      rw (unknown, decode_entry-unknown e.ty e.value out unknown) (decode_entries-retain es out)
]

-- A payload decodes as the payload of those of its entries, in order, that have a known type: newer
-- diagnostic TLVs neither fail nor change the decoding of the others.
pub decode-retain :
    (s : TlvSet) (bytes known_bytes : Bytes)
    → encode s ≡ ok bytes
    → encode (record { entries = retain (λ (e : TlvEntry). is_known e.ty) s.entries })
      ≡ ok known_bytes
    → decode bytes ≡ decode known_bytes
unfolding decode
decode-retain s bytes known_bytes e k =
    rw (parse-encode s bytes e, parse-encode _ known_bytes k)
      (sym (decode_entries-retain s.entries empty))
