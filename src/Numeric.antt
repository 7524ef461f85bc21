-- ===== src/Numeric.antt =====
-- luv_numeric_limits.hpp: the bounds that the decoder, the book and the gateway share.
-- An int64_t is the integer that it stands for. `checked_add` returns its sum or nothing.
pub mod Bounds
use luv_flicker.Base.{
  ℤ, pos, ◌+ℤ◌, ◌-ℤ◌, ltb_ℤ, leb_ℤ, int64_max, int64_min, Bool, ◌&&◌, ◌||◌, Option, none, some,
  if◌then◌else◌,
}

abbrev pub min_price : ℤ
min_price = pos 1

abbrev pub max_price : ℤ
max_price = pos 0xffff_ffff

abbrev pub min_quantity : ℤ
min_quantity = pos 1

abbrev pub max_quantity : ℤ
max_quantity = pos 1_000_000_000

unfoldable pub is_valid_price : ℤ → Bool
is_valid_price value = leb_ℤ min_price value && leb_ℤ value max_price

unfoldable pub is_valid_quantity : ℤ → Bool
is_valid_quantity value = leb_ℤ min_quantity value && leb_ℤ value max_quantity

unfoldable pub checked_add : ℤ → ℤ → Option ℤ
checked_add lhs rhs =
    if (ltb_ℤ (pos 0) rhs && ltb_ℤ (int64_max -ℤ rhs) lhs)
      || (ltb_ℤ rhs (pos 0) && ltb_ℤ lhs (int64_min -ℤ rhs))
    then none
    else some (lhs +ℤ rhs)
