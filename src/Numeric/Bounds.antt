-- ===== src/Numeric/Bounds.antt =====
-- What `checked_add` promises of int64_t addition.
use luv_flicker.Base.{
  ℤ, pos, ◌+ℤ◌, ◌-ℤ◌, ◌≤ℤ◌, int64_max, int64_min, ◌≡◌, ◌↔◌, ◌⊎◌, true, none, some, arith,
}
use luv_flicker.Numeric.{checked_add, is_valid_price, is_valid_quantity, max_price, max_quantity}

-- The integer is a value of int64_t.
pub record IsInt64 (a : ℤ) : Type 0 where
  pub above : int64_min ≤ℤ a
  pub below : a ≤ℤ int64_max

-- For operands that are int64_t values, `checked_add` gives the exact sum, which is an int64_t value,
-- or it gives nothing, and then the exact sum is no int64_t value.
pub checked_add-exact :
    (lhs rhs : ℤ)
    → IsInt64 lhs
    → IsInt64 rhs
    → ((checked_add lhs rhs ≡ some (lhs +ℤ rhs)) × IsInt64 (lhs +ℤ rhs))
      ⊎ ((checked_add lhs rhs ≡ none) × (¬ IsInt64 (lhs +ℤ rhs)))
unfolding checked_add ◌-ℤ◌ ◌+ℤ◌
checked_add-exact lhs rhs l r = ground arith

pub checked_add-eq_some :
    (lhs rhs : ℤ) {total : ℤ} → checked_add lhs rhs ≡ some total → total ≡ lhs +ℤ rhs
unfolding checked_add
checked_add-eq_some lhs rhs e = ground arith

pub is_valid_price_iff :
    (value : ℤ) → (is_valid_price value ≡ true) ↔ ((pos 1 ≤ℤ value) × (value ≤ℤ max_price))
unfolding is_valid_price
is_valid_price_iff value = ground arith

pub is_valid_quantity_iff :
    (value : ℤ) → (is_valid_quantity value ≡ true) ↔ ((pos 1 ≤ℤ value) × (value ≤ℤ max_quantity))
unfolding is_valid_quantity
is_valid_quantity_iff value = ground arith
