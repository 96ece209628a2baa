-- ===== src/Meshcop/Diag/Prefixes.antt =====
-- Network data against its layout in the Thread specification: sub-TLVs, prefixes and what they hold.
use ot_commissioner_rs.Base.{
  append_assoc, drop-append_eq, append-nil, drop-length-append, take-append_eq, sym,
  take-length-append, length-append, ap, le→ltb, refl, ◌-◌, ◌∙◌, Result, ok, length, ℕ, zero, suc,
  Bool, ◌≡◌, ◌<◌, ◌≤◌, ◌+◌, ◌*◌, ◌/◌, List, [], ◌∷◌, ◌++◌, Bytes, All, arith, Option, none, some,
}
use ot_commissioner_rs.Errors.{Error}
use ot_commissioner_rs.Meshcop.Diag.{
  HasRouteEntry, BorderRouterEntry, SixLowPanContext, PrefixEntry,
}
use ot_commissioner_rs.Meshcop.Diag.Entries.{
  bit-le, bit, BorderRouterFits, HasRouteFits, has_routes_bytes, border_routers_bytes,
  context_bytes, decode_has_route-bytes, decode_border_router-bytes,
  decode_six_low_pan_context-bytes,
}
use ot_commissioner_rs.Meshcop.Diag.Network.{
  next_tlv, for_each_tlv, prefix_sub_tlv, decode_prefix_entry, network_sub_tlv, decode_network_data,
  bare_prefix, prefix_bytes,
}

-- A sub-TLV: its type above the stable flag, its length and its value.
abbrev pub sub_tlv : Bool → ℕ → Bytes → Bytes
sub_tlv stable ty value = (ty * 2 + bit stable) ∷ length value ∷ value

next_tlv-sub_tlv :
    (stable : Bool) (ty : ℕ) (value rest : Bytes)
    → next_tlv (sub_tlv stable ty value ++ rest) ≡ ok ((ty, value), rest)
unfolding next_tlv
next_tlv-sub_tlv stable ty value rest =
    let b = bit-le stable in
    let half : (ty * 2 + bit stable) / 2 ≡ ty = omega arith in
    rw
      (
        le→ltb (length (value ++ rest)) (length value) (omega (arith, length-append value rest)),
        half,
        take-length-append value rest,
        drop-length-append value rest,
      )
      refl

-- A sub-TLV at the front is handed to the body.
for_each_tlv-sub_tlv :
    {S : Type 0} (body : ℕ × Bytes → S → Result Error S) (fuel : ℕ) (stable : Bool) (ty : ℕ)
    (value rest : Bytes) (s t : S)
    → body (ty, value) s ≡ ok t
    → for_each_tlv body (suc fuel) (sub_tlv stable ty value ++ rest) s
      ≡ for_each_tlv body fuel rest t
unfolding for_each_tlv
for_each_tlv-sub_tlv body fuel stable ty value rest s t e =
    rw (next_tlv-sub_tlv stable ty value rest, e) refl

for_each_tlv-nil :
    {S : Type 0} (body : ℕ × Bytes → S → Result Error S) (fuel : ℕ) (s : S)
    → for_each_tlv body fuel [] s ≡ ok s
unfolding for_each_tlv
for_each_tlv-nil body zero s = refl
for_each_tlv-nil body (suc fuel) s = refl

-- The three kinds of sub-TLV of a prefix; a context is optional.
abbrev pub context_tlv : Bool → Option SixLowPanContext → Bytes
context_tlv stable none = []
context_tlv stable (some c) = sub_tlv stable 3 (context_bytes c)

abbrev pub prefix_tlvs : Bool → PrefixEntry → Bytes
prefix_tlvs stable e =
    sub_tlv stable 0 (has_routes_bytes e.has_route)
    ++ (sub_tlv stable 2 (border_routers_bytes e.border_routers)
        ++ context_tlv stable e.six_low_pan_context)

abbrev pub prefix_value : Bool → PrefixEntry → Bytes
prefix_value stable e = e.domain_id ∷ e.prefix_bit_length ∷ (e.prefix ++ prefix_tlvs stable e)

abbrev pub ContextFits : Option SixLowPanContext → Type 0
ContextFits none = Unit
ContextFits (some c) = c.context_id < 16

pub record PrefixFits (e : PrefixEntry) : Type 0 where
  pub prefix : length e.prefix ≡ prefix_bytes e.prefix_bit_length
  pub routes : All HasRouteFits e.has_route
  pub routers : All BorderRouterFits e.border_routers
  pub context : ContextFits e.six_low_pan_context

sub_routes :
    (s : PrefixEntry) (es : List HasRouteEntry)
    → All HasRouteFits es
    → prefix_sub_tlv (0, has_routes_bytes es) s ≡ ok (record s { has_route = s.has_route ++ es })
unfolding prefix_sub_tlv
sub_routes s es h = rw (decode_has_route-bytes es h) refl

sub_routers :
    (s : PrefixEntry) (es : List BorderRouterEntry)
    → All BorderRouterFits es
    → prefix_sub_tlv (2, border_routers_bytes es) s
      ≡ ok (record s { border_routers = s.border_routers ++ es })
unfolding prefix_sub_tlv
sub_routers s es h = rw (decode_border_router-bytes es h) refl

sub_context :
    (s : PrefixEntry) (c : SixLowPanContext)
    → c.context_id < 16
    → prefix_sub_tlv (3, context_bytes c) s ≡ ok (record s { six_low_pan_context = some c })
unfolding prefix_sub_tlv
sub_context s c h = rw (decode_six_low_pan_context-bytes c h) refl

last_context :
    (fuel : ℕ) (stable : Bool) (s : PrefixEntry) (c : Option SixLowPanContext)
    → ContextFits c
    → s.six_low_pan_context ≡ none
    → for_each_tlv prefix_sub_tlv (suc fuel) (context_tlv stable c) s
      ≡ ok (record s { six_low_pan_context = c })
last_context fuel stable s none h e =
    for_each_tlv-nil prefix_sub_tlv (suc fuel) s
    ∙ ap (λ o. ok (record s { six_low_pan_context = o })) e
last_context fuel stable s (some c) h e =
    ap (λ b. for_each_tlv prefix_sub_tlv (suc fuel) b s)
      (sym (append-nil (sub_tlv stable 3 (context_bytes c))))
    ∙ for_each_tlv-sub_tlv prefix_sub_tlv fuel stable 3 (context_bytes c) [] s _ (sub_context s c h)
    ∙ for_each_tlv-nil prefix_sub_tlv fuel _

prefix_tlvs-read :
    (fuel : ℕ) (stable : Bool) (e : PrefixEntry)
    → PrefixFits e
    → for_each_tlv prefix_sub_tlv
        (suc (suc (suc fuel)))
        (prefix_tlvs stable e)
        (bare_prefix e.domain_id e.prefix_bit_length e.prefix)
      ≡ ok e
prefix_tlvs-read fuel stable e f =
    for_each_tlv-sub_tlv prefix_sub_tlv (suc (suc fuel)) stable 0 (has_routes_bytes e.has_route) _ _
      _ (sub_routes (bare_prefix e.domain_id e.prefix_bit_length e.prefix) e.has_route f.routes)
    ∙ for_each_tlv-sub_tlv prefix_sub_tlv (suc fuel) stable 2
        (border_routers_bytes e.border_routers) _ _ _ (sub_routers _ e.border_routers f.routers)
    ∙ last_context fuel stable _ e.six_low_pan_context f.context refl

decode_prefix_entry-value :
    (stable : Bool) (e : PrefixEntry)
    → PrefixFits e
    → decode_prefix_entry (prefix_value stable e) ≡ ok e
unfolding decode_prefix_entry
decode_prefix_entry-value stable e f =
    let tlvs = prefix_tlvs stable e in
    let routes = sub_tlv stable 0 (has_routes_bytes e.has_route) in
    let more = context_tlv stable e.six_low_pan_context in
    let routers = sub_tlv stable 2 (border_routers_bytes e.border_routers) in
    let size : length tlvs ≡ suc (suc (suc (length tlvs - 3))) =
      omega (arith, length-append routes (routers ++ more), length-append routers more) in
    rw
      (
        le→ltb (length (e.prefix ++ tlvs)) (prefix_bytes e.prefix_bit_length)
            (omega (arith, length-append e.prefix tlvs, f.prefix)),
        take-append_eq (prefix_bytes e.prefix_bit_length) e.prefix tlvs f.prefix,
        drop-append_eq (prefix_bytes e.prefix_bit_length) e.prefix tlvs f.prefix,
      )
      (ap
          (λ n.
            for_each_tlv prefix_sub_tlv n tlvs
              (bare_prefix e.domain_id e.prefix_bit_length e.prefix))
          size
        ∙ prefix_tlvs-read (length tlvs - 3) stable e f)

-- The value of a Network Data TLV: a sub-TLV for each prefix.
abbrev pub network_bytes : Bool → List PrefixEntry → Bytes
network_bytes stable [] = []
network_bytes stable (e ∷ es) = sub_tlv stable 1 (prefix_value stable e) ++ network_bytes stable es

network_sub_tlv-prefix :
    (stable : Bool) (before : List PrefixEntry) (e : PrefixEntry)
    → PrefixFits e
    → network_sub_tlv (1, prefix_value stable e) before ≡ ok (before ++ e ∷ [])
unfolding network_sub_tlv
network_sub_tlv-prefix stable before e f = rw (decode_prefix_entry-value stable e f) refl

network_read :
    (fuel : ℕ) (stable : Bool) (before es : List PrefixEntry)
    → All PrefixFits es
    → length (network_bytes stable es) ≤ fuel
    → for_each_tlv network_sub_tlv fuel (network_bytes stable es) before ≡ ok (before ++ es)
network_read fuel stable before [] f h =
    for_each_tlv-nil network_sub_tlv fuel before ∙ ap ok (sym (append-nil before))
network_read zero stable before (e ∷ es) f h = absurd (omega arith)
network_read (suc fuel) stable before (e ∷ es) f h =
    let front = sub_tlv stable 1 (prefix_value stable e) in
    for_each_tlv-sub_tlv network_sub_tlv fuel stable 1 (prefix_value stable e)
      (network_bytes stable es) before _ (network_sub_tlv-prefix stable before e f.0)
    ∙ network_read fuel stable (before ++ e ∷ []) es f.1
        (omega (arith, length-append front (network_bytes stable es)))
    ∙ ap ok (append_assoc before (e ∷ []) es)

-- Network data laid out as the Thread specification has it, in prefixes with their external routes,
-- border routers and 6LoWPAN context, is decoded as it is, whatever the stable flag.
pub decode_network_data-bytes :
    (stable : Bool) (es : List PrefixEntry)
    → All PrefixFits es
    → decode_network_data (network_bytes stable es) ≡ ok (record { prefixes = es })
unfolding decode_network_data
decode_network_data-bytes stable es f =
    rw (network_read (length (network_bytes stable es)) stable [] es f (omega arith)) refl
