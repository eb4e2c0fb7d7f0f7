-- ===== src/Partitioner/Words.antt =====
-- Arithmetic of `i32` and `u32`.
use rmem_queue.Base.{
  ℕ, suc, ◌+◌, ◌-◌, ◌%◌, ◌^◌, ◌≤◌, ℤ, pos, negsuc, pos_part, neg_part, sub_ℕ, ◌≡◌, arith, ltb,
  if◌then◌else◌,
}

abbrev pub u32_mod : ℕ
u32_mod = 2 ^ 32

-- `x as u32`
unfoldable pub u32_of : ℤ → ℕ
u32_of (pos n) = n % u32_mod
u32_of (negsuc n) = u32_mod - 1 - n % u32_mod

-- `x as i32`
unfoldable pub i32_of : ℕ → ℤ
i32_of u = if ltb u (2 ^ 31) then pos u else negsuc (u32_mod - 1 - u)

-- The value of `i32` that an exact result wraps to.
unfoldable pub wrap_i32 : ℤ → ℤ
unfolding u32_of i32_of
wrap_i32 z = i32_of (u32_of z)

-- `a % n` for a positive `n`: the sign is that of `a`.
unfoldable pub rem_i32 : ℤ → ℤ → ℤ
rem_i32 (pos a) n = pos (a % pos_part n)
rem_i32 (negsuc a) n = sub_ℕ 0 (suc a % pos_part n)

-- `x.abs()`, which leaves `i32::MIN` as it is in a release build.
unfoldable pub abs_i32 : ℤ → ℤ
unfolding wrap_i32
abs_i32 (pos n) = pos n
abs_i32 (negsuc n) = wrap_i32 (pos (suc n))

abbrev pub IsI32 : ℤ → Type 0
IsI32 n = (pos_part n + 1 ≤ 2 ^ 31) × (neg_part n ≤ 2 ^ 31)

-- An exact result within the range is kept.
pub wrap_i32_exact : (z : ℤ) → IsI32 z → wrap_i32 z ≡ z
unfolding wrap_i32
wrap_i32_exact (pos n) h = ground arith
wrap_i32_exact (negsuc n) h = ground arith

pub wrap_i32-IsI32 : (z : ℤ) → IsI32 (wrap_i32 z)
unfolding wrap_i32
wrap_i32-IsI32 (pos n) = ground arith
wrap_i32-IsI32 (negsuc n) = ground arith
