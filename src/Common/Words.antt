-- ===== src/Common/Words.antt =====
-- Unsigned machine words and their little-endian bytes (`to_le_bytes`, `from_le_bytes`).
use Prim.Native.Nat.{ℕ, zero, suc, ◌+◌, ◌*◌, ◌/◌, ◌%◌, ◌^◌, ◌<◌}
use mathlib.Core.Path.{◌≡◌}
use mathlib.Core.List.{List, [], ◌∷◌}
use native.Mathlib.Omega.{arith}

abbrev pub u8_mod : ℕ
u8_mod = 2 ^ 8

abbrev pub u16_mod : ℕ
u16_mod = 2 ^ 16

abbrev pub u32_mod : ℕ
u32_mod = 2 ^ 32

abbrev pub u64_mod : ℕ
u64_mod = 2 ^ 64

-- `u16::MAX` and `u32::MAX`.
abbrev pub u16_max : ℕ
u16_max = 0xFFFF

abbrev pub u32_max : ℕ
u32_max = 0xFFFFFFFF

-- The low `w` bytes of `v`, lowest first.
abbrev pub to_le_bytes : ℕ → ℕ → List ℕ
to_le_bytes zero v = []
to_le_bytes (suc w) v = (v % 256) ∷ to_le_bytes w (v / 256)

abbrev pub from_le_bytes : List ℕ → ℕ
from_le_bytes [] = 0
from_le_bytes (b ∷ bs) = b + 256 * from_le_bytes bs

pub from_le_bytes_u16 : (v : ℕ) → v < u16_mod → from_le_bytes (to_le_bytes 2 v) ≡ v
from_le_bytes_u16 v h = omega arith

pub from_le_bytes_u32 : (v : ℕ) → v < u32_mod → from_le_bytes (to_le_bytes 4 v) ≡ v
from_le_bytes_u32 v h = omega arith

pub from_le_bytes_u64 : (v : ℕ) → v < u64_mod → from_le_bytes (to_le_bytes 8 v) ≡ v
from_le_bytes_u64 v h = omega arith
