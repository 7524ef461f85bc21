-- ===== src/DarkPool/Order.antt =====
-- The comparison that `match_cross` of luv_dark_pool.hpp gives to `std::sort` is a strict weak order.
use luv_flicker.Base.{
  ltb_ℤ, ◌≡◌, subst, fun_ext, Bool, true, false, not, ◌&&◌, if◌then◌else◌, ◌==◌, ltb, arith,
}
use luv_flicker.Exec.Types.{buy}
use luv_flicker.DarkPool.{DarkOrder, Taker, effective_price, goes_before, is_displayed}

-- A strict weak order, which `std::sort` asks of its comparison.
pub record IsStrictWeak {ℓ} {A : Type ℓ} (before : A → A → Bool) : Type ℓ where
  pub irreflexive : (a : A) → before a a ≡ false
  pub transitive : (a b c : A) → before a b ≡ true → before b c ≡ true → before a c ≡ true
  pub incomparable : (a b c : A) → before a b ≡ false → before b c ≡ false → before a c ≡ false

module _ {ℓ} {A : Type ℓ} (r s : A → A → Bool) where
  -- By the first order, and by the second where the first does not decide.
  lex : A → A → Bool
  lex a b = if r a b then true else if r b a then false else s a b

  lex-IsStrictWeak : IsStrictWeak r → IsStrictWeak s → IsStrictWeak lex
  unfolding lex
  lex-IsStrictWeak R S = record {
    irreflexive = λ a. rw (R.irreflexive a) (S.irreflexive a);
    transitive = λ a b c h k. ground (
      arith,
      R.transitive a b c,
      R.transitive b c a,
      R.transitive c a b,
      R.incomparable a b c,
      R.incomparable b a c,
      R.incomparable a c b,
      R.incomparable c b a,
      R.incomparable c a b,
      R.incomparable b c a,
      S.transitive a b c,
    );
    incomparable = λ a b c h k. ground (
      arith,
      R.transitive c b a,
      R.transitive b a c,
      R.transitive a c b,
      R.incomparable a b c,
      R.incomparable b a c,
      R.incomparable a c b,
      R.incomparable c b a,
      R.incomparable c a b,
      R.incomparable b c a,
      S.incomparable a b c,
    );
  }

module _ (t : Taker) where
  by_price : DarkOrder → DarkOrder → Bool
  by_price a b =
      if t.side == buy
      then ltb_ℤ (effective_price t a) (effective_price t b)
      else ltb_ℤ (effective_price t b) (effective_price t a)

  by_display : DarkOrder → DarkOrder → Bool
  by_display a b = is_displayed a.display_mode && not (is_displayed b.display_mode)

  by_time : DarkOrder → DarkOrder → Bool
  by_time a b = ltb a.priority_ts_ns b.priority_ts_ns

  goes_before-lex :
      (a b : DarkOrder) → lex by_price (lex by_display by_time) a b ≡ goes_before t a b
  unfolding lex by_price by_display by_time goes_before
  goes_before-lex a b = ground arith

  by_price-IsStrictWeak : IsStrictWeak by_price
  unfolding by_price
  by_price-IsStrictWeak = record {
    irreflexive = λ a. ground arith;
    transitive = λ a b c h k. ground arith;
    incomparable = λ a b c h k. ground arith;
  }

  by_display-IsStrictWeak : IsStrictWeak by_display
  unfolding by_display
  by_display-IsStrictWeak = record {
    irreflexive = λ a. ground arith;
    transitive = λ a b c h k. ground arith;
    incomparable = λ a b c h k. ground arith;
  }

  by_time-IsStrictWeak : IsStrictWeak by_time
  unfolding by_time
  by_time-IsStrictWeak = record {
    irreflexive = λ a. ground arith;
    transitive = λ a b c h k. ground arith;
    incomparable = λ a b c h k. ground arith;
  }

  -- The comparison of the resting orders under any taker is a strict weak order.
  pub goes_before-IsStrictWeak : IsStrictWeak (goes_before t)
  goes_before-IsStrictWeak =
      subst (IsStrictWeak {A = DarkOrder}) (fun_ext (λ a. fun_ext (λ b. goes_before-lex a b))) (
        lex-IsStrictWeak by_price (lex by_display by_time) by_price-IsStrictWeak
          (lex-IsStrictWeak by_display by_time by_display-IsStrictWeak by_time-IsStrictWeak))
