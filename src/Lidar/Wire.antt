-- ===== src/Lidar/Wire.antt =====
-- The little-endian reads of src/lidar_stream.cpp. A pointer into a datagram is the list of the bytes
-- from there to the datagram's end, and a read beyond the end is `none`. The bytes of a read are
-- shifted to places that do not overlap, so that `|` of them is their sum.
use hypertron_sw01_ros2_brid.Prelude.{
  ℕ, zero, suc, ◌+◌, ◌*◌, ◌/◌, ◌%◌, ◌^◌, ◌≤◌, ◌<◌, ◌≡◌, refl, [], ◌∷◌, ◌++◌, Option, some, arith,
  length, get_elem?, drop, ◌>>=◌, IsDefined, bind-IsDefined, length-drop,
}
use hypertron_sw01_ros2_brid.Prelude.Text.{Bytes}
use hypertron_sw01_ros2_brid.Prelude.Int.{ℤ, signed}

unfoldable pub read_u16_le : Bytes → Option ℕ
read_u16_le p = do b0 ← get_elem? p 0; b1 ← get_elem? p 1; some (b0 + b1 * 2 ^ 8)

unfoldable pub read_u32_le : Bytes → Option ℕ
read_u32_le p = do
  b0 ← get_elem? p 0
  b1 ← get_elem? p 1
  b2 ← get_elem? p 2
  b3 ← get_elem? p 3
  some (b0 + b1 * 2 ^ 8 + b2 * 2 ^ 16 + b3 * 2 ^ 24)

unfoldable pub read_u64_le : Bytes → Option ℕ
read_u64_le p = do lo ← read_u32_le p; hi ← read_u32_le (drop 4 p); some (lo + hi * 2 ^ 32)

unfoldable pub read_i32_le : Bytes → Option ℤ
read_i32_le p = do v ← read_u32_le p; some (signed 32 v)

unfoldable pub read_i64_le : Bytes → Option ℤ
read_i64_le p = do v ← read_u64_le p; some (signed 64 v)

-- The bytes of a number, the lowest first: what a sender writes.
unfoldable pub write_le : ℕ → ℕ → Bytes
write_le zero v = []
write_le (suc k) v = (v % 256) ∷ write_le k (v / 256)

pub length-write_le : (k v : ℕ) → length (write_le k v) ≡ k
unfolding write_le
length-write_le zero v = refl
length-write_le (suc k) v = omega (arith, length-write_le k (v / 256))

pub read_u16_le-write_le :
    (v : ℕ) (rest : Bytes) → v < 2 ^ 16 → read_u16_le (write_le 2 v ++ rest) ≡ some v
unfolding read_u16_le write_le
read_u16_le-write_le v rest h = ground arith

pub read_u32_le-write_le :
    (v : ℕ) (rest : Bytes) → v < 2 ^ 32 → read_u32_le (write_le 4 v ++ rest) ≡ some v
unfolding read_u32_le write_le
read_u32_le-write_le v rest h = ground arith

pub read_u16_le-IsDefined : (p : Bytes) → 2 ≤ length p → IsDefined (read_u16_le p)
unfolding read_u16_le
read_u16_le-IsDefined [] h = absurd (omega arith)
read_u16_le-IsDefined (a ∷ []) h = absurd (omega arith)
read_u16_le-IsDefined (a ∷ b ∷ p) h = (_, refl)

pub read_u32_le-IsDefined : (p : Bytes) → 4 ≤ length p → IsDefined (read_u32_le p)
unfolding read_u32_le
read_u32_le-IsDefined [] h = absurd (omega arith)
read_u32_le-IsDefined (a ∷ []) h = absurd (omega arith)
read_u32_le-IsDefined (a ∷ b ∷ []) h = absurd (omega arith)
read_u32_le-IsDefined (a ∷ b ∷ c ∷ []) h = absurd (omega arith)
read_u32_le-IsDefined (a ∷ b ∷ c ∷ d ∷ p) h = (_, refl)

pub read_u64_le-write_le :
    (v : ℕ) (rest : Bytes) → v < 2 ^ 64 → read_u64_le (write_le 8 v ++ rest) ≡ some v
unfolding read_u64_le read_u32_le write_le
read_u64_le-write_le v rest h = ground arith

pub read_i32_le-write_le :
    (v : ℕ) (rest : Bytes) → v < 2 ^ 32 → read_i32_le (write_le 4 v ++ rest) ≡ some (signed 32 v)
unfolding read_i32_le
read_i32_le-write_le v rest h = rw (read_u32_le-write_le v rest h) refl

pub read_i64_le-write_le :
    (v : ℕ) (rest : Bytes) → v < 2 ^ 64 → read_i64_le (write_le 8 v ++ rest) ≡ some (signed 64 v)
unfolding read_i64_le
read_i64_le-write_le v rest h = rw (read_u64_le-write_le v rest h) refl

pub read_u64_le-IsDefined : (p : Bytes) → 8 ≤ length p → IsDefined (read_u64_le p)
unfolding read_u64_le
read_u64_le-IsDefined p h =
    bind-IsDefined (read_u32_le p) _ (read_u32_le-IsDefined p (omega arith)) (λ lo e.
      bind-IsDefined (read_u32_le (drop 4 p)) _
        (read_u32_le-IsDefined (drop 4 p) (omega (arith, length-drop 4 p))) (λ hi e'. (_, refl)))

pub read_i32_le-IsDefined : (p : Bytes) → 4 ≤ length p → IsDefined (read_i32_le p)
unfolding read_i32_le
read_i32_le-IsDefined p h =
    bind-IsDefined (read_u32_le p) _ (read_u32_le-IsDefined p h) (λ v e. (_, refl))

pub read_i64_le-IsDefined : (p : Bytes) → 8 ≤ length p → IsDefined (read_i64_le p)
unfolding read_i64_le
read_i64_le-IsDefined p h =
    bind-IsDefined (read_u64_le p) _ (read_u64_le-IsDefined p h) (λ v e. (_, refl))
