-- ===== src/Meshcop/Builders/Payloads.antt =====
-- The payloads that the builders assemble.
use ot_commissioner_rs.Base.{
  ℕ, ◌≡◌, refl, sym, ap, ◌∙◌, List, [], ◌∷◌, ◌++◌, append-nil, All, All-append, Bytes, ok,
  map_err-eq-ok,
}
use ot_commissioner_rs.Tlv.{TlvEntry, parse, encode_entry}
use ot_commissioner_rs.Tlv.RoundTrip.{
  Fits, chunk_of, chunks, chunks-append, chunks-Chunks, parse-Chunks, encode_entry-chunk_of,
}
use ot_commissioner_rs.Errors.{tlv}
use ot_commissioner_rs.Meshcop.Builders.{append_tlv}

-- The bytes are the entries, one after the other.
pub record IsPayload (bytes : Bytes) (es : List TlvEntry) : Type 0 where
  pub written : bytes ≡ chunks es
  pub fits : All Fits es

pub nil-IsPayload : IsPayload [] []
nil-IsPayload = record { written = refl; fits = tt }

-- Appending a TLV appends its entry.
pub append_tlv-IsPayload :
    (out : Bytes) (ty : ℕ) (value bytes : Bytes) (es : List TlvEntry)
    → IsPayload out es
    → append_tlv out ty value ≡ ok bytes
    → IsPayload bytes (es ++ record { ty = ty; value = value } ∷ [])
unfolding append_tlv
append_tlv-IsPayload out ty value bytes es p h =
    let e : TlvEntry = record { ty = ty; value = value } in
    let (fits, same) =
      encode_entry-chunk_of e out bytes (map_err-eq-ok tlv (encode_entry e out) h) in
    record {
      written =
          same
          ∙ ap (λ o. o ++ chunk_of e) p.written
          ∙ ap (λ c. chunks es ++ c) (sym (append-nil (chunk_of e)))
          ∙ sym (chunks-append es (e ∷ []));
      fits = All-append Fits es (e ∷ []) p.fits (fits, tt);
    }

-- The parser gives the entries back.
pub parse-IsPayload :
    (bytes : Bytes) (es : List TlvEntry)
    → IsPayload bytes es
    → parse bytes ≡ ok (record { entries = es })
parse-IsPayload bytes es p =
    rw p.written (parse-Chunks (record { entries = es }) (chunks es) (chunks-Chunks es p.fits))
