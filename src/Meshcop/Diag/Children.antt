-- ===== src/Meshcop/Diag/Children.antt =====
-- The child table against its layout in the Thread specification.
use ot_commissioner_rs.Base.{
  bit_or, bit_and, ◌==◌, refl, ok, not, bit_or_fields, bit_and_mask, get_or, ◌^◌, ◌∙◌, length, ◌%◌,
  ℕ, Bool, true, false, ◌≡◌, ◌<◌, ◌+◌, ◌*◌, ◌/◌, List, [], ◌∷◌, map, Bytes, All, arith,
}
use ot_commissioner_rs.Meshcop.Diag.{ChildTableEntry, ModeData}
use ot_commissioner_rs.Meshcop.Diag.Entries.{bit, flat, sized, length-flat, chunks_exact-flat}
use ot_commissioner_rs.Meshcop.Diag.Fields.{
  child_entry, child_entries, decode_child_table, decode_mode,
}

abbrev pub mode_byte : ModeData → ℕ
mode_byte m = bit m.rx_on_when_idle * 8 + bit (not m.is_mtd) * 2 + bit m.requires_full_network_data

abbrev pub child_bytes : ChildTableEntry → Bytes
child_bytes c =
    (c.timeout_exponent * 8 + c.incoming_link_quality * 2 + c.child_id / 256)
    ∷ (c.child_id % 256)
    ∷ mode_byte c.mode
    ∷ []

pub record ChildFits (c : ChildTableEntry) : Type 0 where
  pub quality : c.incoming_link_quality < 4
  pub child_id : c.child_id < 512

decode_mode-byte : (m : ModeData) → decode_mode (mode_byte m ∷ []) ≡ ok m
unfolding decode_mode
decode_mode-byte m = every m.rx_on_when_idle m.is_mtd m.requires_full_network_data
  where
    every :
        (a b c : Bool)
        → decode_mode (
            mode_byte (record { rx_on_when_idle = a; is_mtd = b; requires_full_network_data = c })
            ∷ [])
          ≡ ok (record { rx_on_when_idle = a; is_mtd = b; requires_full_network_data = c })
    every true true true = refl
    every true true false = refl
    every true false true = refl
    every true false false = refl
    every false true true = refl
    every false true false = refl
    every false false true = refl
    every false false false = refl

child_entry-bytes : (c : ChildTableEntry) → ChildFits c → child_entry (child_bytes c) ≡ ok c
unfolding child_entry
child_entry-bytes c f =
    let head = get_or (child_bytes c) 0 0 in
    let high : bit_and head 1 ≡ c.child_id / 256 =
      bit_and_mask 1 head ∙ omega (arith, f.quality, f.child_id) in
    let quality : bit_and (head / 2) 3 ≡ c.incoming_link_quality =
      bit_and_mask 2 (head / 2) ∙ omega (arith, f.quality, f.child_id) in
    let exponent : head / 2 ^ 3 ≡ c.timeout_exponent = omega (arith, f.quality, f.child_id) in
    let id : bit_or (c.child_id / 256 * 2 ^ 8) (c.child_id % 256) ≡ c.child_id =
      bit_or_fields 8 (c.child_id / 256) (c.child_id % 256) (omega arith) ∙ omega arith in
    rw (decode_mode-byte c.mode, high, quality, exponent, id) refl

child_entries-bytes :
    (cs : List ChildTableEntry) → All ChildFits cs → child_entries (map child_bytes cs) ≡ ok cs
unfolding child_entries
child_entries-bytes [] h = refl
child_entries-bytes (c ∷ cs) h = rw (child_entry-bytes c h.0, child_entries-bytes cs h.1) refl

-- A child table, laid out as the Thread specification has it, is decoded as it is, the nine bits of the
-- child ids and the modes included.
pub decode_child_table-bytes :
    (cs : List ChildTableEntry)
    → All ChildFits cs
    → decode_child_table (flat (map child_bytes cs)) ≡ ok cs
unfolding decode_child_table
decode_child_table-bytes cs h =
    let sizes = sized child_bytes 3 (λ c. refl) cs in
    let size = length-flat 3 (map child_bytes cs) sizes in
    let whole : (length (flat (map child_bytes cs)) % 3 == 0) ≡ true = ground (arith, size) in
    rw (whole, chunks_exact-flat 3 (map child_bytes cs) sizes (omega (arith, size)))
      (child_entries-bytes cs h)
