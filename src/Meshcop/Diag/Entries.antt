-- ===== src/Meshcop/Diag/Entries.antt =====
-- The entries of network data and of the child table against their layout in the Thread specification.
use mathlib.Core.Path.{ap, ap₂}
use ot_commissioner_rs.Base.{
  ◌==◌, drop-append_eq, refl, ok, take-append_eq, bit_and_mask, get_or, from_be-to_be_u16,
  length-append, ◌^◌, ◌∙◌, IsU16, to_be_u16, length, ◌%◌, ℕ, suc, Bool, true, false, ◌≡◌, ◌<◌, ◌≤◌,
  ◌+◌, ◌*◌, ◌/◌, List, [], ◌∷◌, ◌++◌, map, Bytes, All, arith,
}
use ot_commissioner_rs.Meshcop.Diag.{HasRouteEntry, BorderRouterEntry, SixLowPanContext}
use ot_commissioner_rs.Meshcop.Diag.Fields.{has_bits, exact_rounds, chunks_exact}
use ot_commissioner_rs.Meshcop.Diag.Network.{
  has_route_entry, decode_has_route, border_router_entry, decode_border_router,
  decode_six_low_pan_context,
}

abbrev pub bit : Bool → ℕ
bit true = 1
bit false = 0

pub bit-le : (b : Bool) → bit b ≤ 1
bit-le true = omega arith
bit-le false = omega arith

-- A flag is the lowest bit of what it is shifted to.
flag_of : (x : ℕ) (b : Bool) → x % 2 ≡ bit b → has_bits x 0x01 ≡ b
flag_of x true e = ground (arith, bit_and_mask 1 x)
flag_of x false e = ground (arith, bit_and_mask 1 x)

-- One list after the other.
abbrev pub flat : List Bytes → Bytes
flat [] = []
flat (x ∷ xs) = x ++ flat xs

abbrev pub HasSize : ℕ → Bytes → Type 0
HasSize n b = length b ≡ n

pub length-flat : (n : ℕ) (xs : List Bytes) → All (HasSize n) xs → length (flat xs) ≡ length xs * n
length-flat n [] h = omega arith
length-flat n (x ∷ xs) h = length-append x (flat xs) ∙ grind (arith, h.0, length-flat n xs h.1)

exact_rounds-flat :
    (n : ℕ) (xs : List Bytes) → All (HasSize n) xs → exact_rounds (length xs) n (flat xs) ≡ xs
unfolding exact_rounds
exact_rounds-flat n [] h = refl
exact_rounds-flat n (x ∷ xs) h = ap₂ ◌∷◌ (take-append_eq n x (flat xs) h.0) (
    ap (exact_rounds (length xs) n) (drop-append_eq n x (flat xs) h.0) ∙ exact_rounds-flat n xs h.1)

pub chunks_exact-flat :
    (n : ℕ) (xs : List Bytes)
    → All (HasSize n) xs
    → length (flat xs) / n ≡ length xs
    → chunks_exact n (flat xs) ≡ xs
unfolding chunks_exact
chunks_exact-flat n xs h rounds =
    ap (λ k. exact_rounds k n (flat xs)) rounds ∙ exact_rounds-flat n xs h

abbrev pub border_router_bytes : BorderRouterEntry → Bytes
border_router_bytes e =
    to_be_u16 e.rloc16
    ++ (e.prefix_preference * 64
        + bit e.is_preferred * 32
        + bit e.is_slaac * 16
        + bit e.is_dhcp * 8
        + bit e.is_configure * 4
        + bit e.is_default_route * 2
        + bit e.is_on_mesh)
      ∷ (bit e.is_nd_dns * 128 + bit e.is_dp * 64)
      ∷ []

pub record BorderRouterFits (e : BorderRouterEntry) : Type 0 where
  pub rloc16 : IsU16 e.rloc16
  pub preference : e.prefix_preference < 4

border_router_entry-bytes :
    (e : BorderRouterEntry) → BorderRouterFits e → border_router_entry (border_router_bytes e) ≡ e
unfolding border_router_entry
border_router_entry-bytes e f =
    let p = bit-le e.is_preferred in
    let s = bit-le e.is_slaac in
    let d = bit-le e.is_dhcp in
    let c = bit-le e.is_configure in
    let r = bit-le e.is_default_route in
    let m = bit-le e.is_on_mesh in
    let n = bit-le e.is_nd_dns in
    let q = bit-le e.is_dp in
    rw
      (
        from_be-to_be_u16 e.rloc16 f.rloc16,
        bit_and_mask 2 (get_or (border_router_bytes e) 2 0 / 2 ^ 6),
        flag_of (get_or (border_router_bytes e) 2 0 / 2 ^ 5) e.is_preferred (omega arith),
        flag_of (get_or (border_router_bytes e) 2 0 / 2 ^ 4) e.is_slaac (omega arith),
        flag_of (get_or (border_router_bytes e) 2 0 / 2 ^ 3) e.is_dhcp (omega arith),
        flag_of (get_or (border_router_bytes e) 2 0 / 2 ^ 2) e.is_configure (omega arith),
        flag_of (get_or (border_router_bytes e) 2 0 / 2 ^ 1) e.is_default_route (omega arith),
        flag_of (get_or (border_router_bytes e) 2 0) e.is_on_mesh (omega arith),
        flag_of (get_or (border_router_bytes e) 3 0 / 2 ^ 7) e.is_nd_dns (omega arith),
        flag_of (get_or (border_router_bytes e) 3 0 / 2 ^ 6) e.is_dp (omega arith),
      )
      (ap (λ p. record e { prefix_preference = p }) (omega (arith, f.preference)))

-- Values that the layout makes are decoded as the entries that they were made from.
module _ {E : Type 0} (wire : E → Bytes) (entry : Bytes → E) where
  map_back :
      (Fits : E → Type 0)
      → ((e : E) → Fits e → entry (wire e) ≡ e)
      → (es : List E) → All Fits es
      → map entry (map wire es) ≡ es
  map_back Fits back [] h = refl
  map_back Fits back (e ∷ es) h = ap₂ ◌∷◌ (back e h.0) (map_back Fits back es h.1)

pub sized :
    {E : Type 0} (wire : E → Bytes) (n : ℕ)
    → ((e : E) → length (wire e) ≡ n)
    → (es : List E) → All (HasSize n) (map wire es)
sized wire n h [] = tt
sized wire n h (e ∷ es) = (h e, sized wire n h es)

length-map : {E : Type 0} (wire : E → Bytes) (es : List E) → length (map wire es) ≡ length es
length-map wire [] = refl
length-map wire (e ∷ es) = ap suc (length-map wire es)

abbrev pub border_routers_bytes : List BorderRouterEntry → Bytes
border_routers_bytes es = flat (map border_router_bytes es)

-- Border routers, laid out as the Thread specification has it, are decoded as they are.
pub decode_border_router-bytes :
    (es : List BorderRouterEntry)
    → All BorderRouterFits es
    → decode_border_router (border_routers_bytes es) ≡ ok es
unfolding decode_border_router
decode_border_router-bytes es h =
    let sizes = sized border_router_bytes 4 (λ e. refl) es in
    let size = length-flat 4 (map border_router_bytes es) sizes in
    let whole : (length (border_routers_bytes es) % 4 == 0) ≡ true = ground (arith, size) in
    rw
      (
        whole,
        chunks_exact-flat 4 (map border_router_bytes es) sizes (omega (arith, size)),
        map_back border_router_bytes border_router_entry BorderRouterFits border_router_entry-bytes
            es h,
      )
      refl

abbrev pub has_route_bytes : HasRouteEntry → Bytes
has_route_bytes e = to_be_u16 e.rloc16 ++ (e.router_preference * 64 + bit e.is_nat64 * 32) ∷ []

abbrev pub has_routes_bytes : List HasRouteEntry → Bytes
has_routes_bytes es = flat (map has_route_bytes es)

pub record HasRouteFits (e : HasRouteEntry) : Type 0 where
  pub rloc16 : IsU16 e.rloc16
  pub preference : e.router_preference < 4

has_route_entry-bytes :
    (e : HasRouteEntry) → HasRouteFits e → has_route_entry (has_route_bytes e) ≡ e
unfolding has_route_entry
has_route_entry-bytes e f =
    let n = bit-le e.is_nat64 in
    rw
      (
        from_be-to_be_u16 e.rloc16 f.rloc16,
        bit_and_mask 2 (get_or (has_route_bytes e) 2 0 / 2 ^ 6),
        flag_of (get_or (has_route_bytes e) 2 0 / 2 ^ 5) e.is_nat64 (omega arith),
      )
      (ap (λ p. record e { router_preference = p }) (omega (arith, f.preference)))

pub decode_has_route-bytes :
    (es : List HasRouteEntry) → All HasRouteFits es → decode_has_route (has_routes_bytes es) ≡ ok es
unfolding decode_has_route
decode_has_route-bytes es h =
    let sizes = sized has_route_bytes 3 (λ e. refl) es in
    let size = length-flat 3 (map has_route_bytes es) sizes in
    let whole : (length (has_routes_bytes es) % 3 == 0) ≡ true = ground (arith, size) in
    rw
      (
        whole,
        chunks_exact-flat 3 (map has_route_bytes es) sizes (omega (arith, size)),
        map_back has_route_bytes has_route_entry HasRouteFits has_route_entry-bytes es h,
      )
      refl

abbrev pub context_bytes : SixLowPanContext → Bytes
context_bytes c = (bit c.is_compress * 16 + c.context_id) ∷ c.context_length ∷ []

pub decode_six_low_pan_context-bytes :
    (c : SixLowPanContext) → c.context_id < 16 → decode_six_low_pan_context (context_bytes c) ≡ ok c
unfolding decode_six_low_pan_context
decode_six_low_pan_context-bytes c h =
    let b = bit-le c.is_compress in
    let flags = bit c.is_compress * 16 + c.context_id in
    rw (flag_of (flags / 2 ^ 4) c.is_compress (omega arith), bit_and_mask 4 flags)
      (ap (λ i. ok (record c { context_id = i })) (omega arith))
