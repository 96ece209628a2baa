-- ===== src/Meshcop/Diag/Routes.antt =====
-- The routes of a Route64 value: which routers have one.
use mathlib.Core.Path.{subst, fun_ext, ap₂}
use ot_commissioner_rs.Base.{
  length-take, take-append-drop, ok-injective, eq_of_guard, All-drop, ltb→le, drop, ltb,
  fail_if-eq-ok, take, retain, ◌++◌, bit_and-zero, refl, ok, length, not, bit_and_mask, All, IsByte,
  ◌==◌, ◌<◌, two_pow_pos, bit_and_split, ◌∙◌, sym, ap, ◌+◌, ◌*◌, ◌-◌, ◌%◌, ◌^◌, ◌/◌, bit_and, ℕ,
  zero, suc, ◌≡◌, List, [], ◌∷◌, Bytes, map, arith,
}
use ot_commissioner_rs.Meshcop.Diag.{RouteDataEntry, Route64}
use ot_commissioner_rs.Meshcop.Diag.Fields.{
  has_bits, range_from, assigned, router_ids, route_entries, decode_route64, at,
}

-- `b & 2^j` is the bit of weight 2^j.
bit_and-power : (j b : ℕ) → bit_and b (2 ^ j) ≡ b / 2 ^ j % 2 * 2 ^ j
bit_and-power j b =
    let one : 1 * 2 ^ j + 0 ≡ 2 ^ j = omega arith in
    ap (bit_and b) (sym one)
    ∙ bit_and_split j b 1 0 (two_pow_pos j)
    ∙ omega (
      arith,
      bit_and_mask 1 (b / 2 ^ j),
      bit_and-zero (b % 2 ^ j),
      ap (λ (m : ℕ). m * 2 ^ j) (bit_and_mask 1 (b / 2 ^ j)),
    )

-- The bit of a mask that stands for a router id, the first byte's most significant bit being 0.
abbrev pub mask_bit : Bytes → ℕ → ℕ
mask_bit mask id = at mask (id / 8) / 2 ^ (7 - id % 8) % 2

shifted : (k : ℕ) → k < 8 → 0x80 / 2 ^ k ≡ 2 ^ (7 - k)
shifted zero h = refl
shifted (suc zero) h = refl
shifted (suc (suc zero)) h = refl
shifted (suc (suc (suc zero))) h = refl
shifted (suc (suc (suc (suc zero)))) h = refl
shifted (suc (suc (suc (suc (suc zero))))) h = refl
shifted (suc (suc (suc (suc (suc (suc zero)))))) h = refl
shifted (suc (suc (suc (suc (suc (suc (suc zero))))))) h = refl
shifted (suc (suc (suc (suc (suc (suc (suc (suc k)))))))) h = absurd (omega arith)

scaled_test : (x p : ℕ) → x < 2 → 0 < p → not (x * p == 0) ≡ (x == 1)
scaled_test zero p h k = ground arith
scaled_test (suc zero) p h k = ground arith
scaled_test (suc (suc x)) p h k = absurd (omega arith)

assigned-mask_bit : (mask : Bytes) (id : ℕ) → assigned mask id ≡ (mask_bit mask id == 1)
unfolding assigned
assigned-mask_bit mask id =
    let b = at mask (id / 8) in
    let j = 7 - id % 8 in
    ap (λ m. has_bits b m) (shifted (id % 8) (omega arith))
    ∙ ap (λ x. not (x == 0)) (bit_and-power j b)
    ∙ scaled_test (b / 2 ^ j % 2) (2 ^ j) (omega arith) (two_pow_pos j)

-- The byte of a route, from its fields.
abbrev pub route_byte : RouteDataEntry → ℕ
route_byte e = e.outgoing_link_quality * 64 + e.incoming_link_quality * 16 + e.route_cost

route_byte-fields :
    (b : ℕ)
    → IsByte b
    → bit_and (b / 2 ^ 6) 0x03 * 64 + bit_and (b / 2 ^ 4) 0x03 * 16 + bit_and b 0x0f ≡ b
route_byte-fields b h =
    omega (arith, bit_and_mask 2 (b / 2 ^ 6), bit_and_mask 2 (b / 2 ^ 4), bit_and_mask 4 b)

route_entries-inverse :
    (ids : List ℕ) (bytes : Bytes)
    → All IsByte bytes
    → length bytes ≡ length ids
    → (map (λ (e : RouteDataEntry). e.router_id) (route_entries ids bytes) ≡ ids)
      × (map route_byte (route_entries ids bytes) ≡ bytes)
unfolding route_entries
route_entries-inverse [] [] all e = (refl, refl)
route_entries-inverse [] (b ∷ bytes) all e = absurd (omega arith)
route_entries-inverse (id ∷ ids) [] all e = absurd (omega arith)
route_entries-inverse (id ∷ ids) (b ∷ bytes) all e =
    let (left, right) = route_entries-inverse ids bytes all.1 (omega arith) in
    (ap (◌∷◌ id) left, ap₂ ◌∷◌ (route_byte-fields b all.0) right)

-- A Route64 value of bytes that is accepted is the sequence number, the mask and a byte for each route,
-- made of the route's fields; and the routes are for the router ids below 64, in ascending order, whose
-- bit in the mask is set, the first byte's most significant bit being that of router 0.
pub decode_route64-inverse :
    (value : Bytes) (r : Route64)
    → All IsByte value
    → decode_route64 value ≡ ok r
    → (value ≡ r.id_sequence ∷ (r.mask ++ map route_byte r.route_data))
      × (length r.mask ≡ 8)
      × (map (λ (e : RouteDataEntry). e.router_id) r.route_data
          ≡ retain (λ id. mask_bit r.mask id == 1) (range_from 64 0))
unfolding decode_route64 router_ids
decode_route64-inverse [] r all e = absurd (cc)
decode_route64-inverse (b ∷ value) r all e =
    let mask = take 8 value in
    let (short, e1) = fail_if-eq-ok (ltb (length (b ∷ value)) 9) _ _ e in
    let (same, e2) =
      fail_if-eq-ok (not (length (drop 8 value) == length (router_ids mask))) _ _ e1 in
    let room = ltb→le (length (b ∷ value)) 9 short in
    let (ids, bytes) =
      route_entries-inverse (router_ids mask) (drop 8 value) (All-drop IsByte 8 value all.1)
        (eq_of_guard _ _ same) in
    let tests = fun_ext (assigned-mask_bit mask) in
    subst
      (λ (x : Route64).
        (b ∷ value ≡ x.id_sequence ∷ (x.mask ++ map route_byte x.route_data))
        × (length x.mask ≡ 8)
        × (map (λ (e : RouteDataEntry). e.router_id) x.route_data
            ≡ retain (λ id. mask_bit x.mask id == 1) (range_from 64 0)))
      (ok-injective e2)
      (
        ap (◌∷◌ b) (sym (ap (λ l. mask ++ l) bytes ∙ take-append-drop 8 value)),
        omega (arith, length-take 8 value),
        ids ∙ ap (λ t. retain t (range_from 64 0)) tests,
      )
