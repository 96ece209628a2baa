-- ===== src/Base/Wire.antt =====
-- Bytes as numbers below 256, and Rust's `to_be_bytes` and `from_be_bytes`.
use Prim.Native.Nat.{ℕ, ◌+◌, ◌*◌, ◌/◌, ◌%◌, ◌^◌, ◌<◌}
use mathlib.Core.Path.{◌≡◌}
use mathlib.Core.List.{List, [], ◌∷◌}
use native.Mathlib.Omega.{arith}

abbrev pub Bytes : Type 0
Bytes = List ℕ

abbrev pub IsByte : ℕ → Type 0
IsByte b = b < 256

abbrev pub IsU16 : ℕ → Type 0
IsU16 v = v < 2 ^ 16

abbrev pub IsU32 : ℕ → Type 0
IsU32 v = v < 2 ^ 32

abbrev pub IsU64 : ℕ → Type 0
IsU64 v = v < 2 ^ 64

-- `v as u8`
abbrev pub as_u8 : ℕ → ℕ
as_u8 v = v % 256

abbrev pub from_be_u16 : ℕ → ℕ → ℕ
from_be_u16 b0 b1 = b0 * 2 ^ 8 + b1

abbrev pub from_be_u32 : ℕ → ℕ → ℕ → ℕ → ℕ
from_be_u32 b0 b1 b2 b3 = b0 * 2 ^ 24 + b1 * 2 ^ 16 + b2 * 2 ^ 8 + b3

-- The bytes of a u16 and a u64, most significant first.
abbrev pub to_be_u16 : ℕ → Bytes
to_be_u16 v = as_u8 (v / 2 ^ 8) ∷ as_u8 v ∷ []

abbrev pub to_be_u32 : ℕ → Bytes
to_be_u32 v = as_u8 (v / 2 ^ 24) ∷ as_u8 (v / 2 ^ 16) ∷ as_u8 (v / 2 ^ 8) ∷ as_u8 v ∷ []

abbrev pub to_be_u64 : ℕ → Bytes
to_be_u64 v =
    as_u8 (v / 2 ^ 56) ∷ as_u8 (v / 2 ^ 48) ∷ as_u8 (v / 2 ^ 40) ∷ as_u8 (v / 2 ^ 32) ∷ to_be_u32 v

pub from_be-to_be_u16 : (v : ℕ) → IsU16 v → from_be_u16 (as_u8 (v / 2 ^ 8)) (as_u8 v) ≡ v
from_be-to_be_u16 v h = omega arith

pub to_be-from_be_u16 : (a b : ℕ) → IsByte a → IsByte b → to_be_u16 (from_be_u16 a b) ≡ a ∷ b ∷ []
to_be-from_be_u16 a b h k = ground arith
