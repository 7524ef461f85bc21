-- ===== src/Luld/Told.antt =====
-- What the state of luv_luld.hpp tells of the quotes seen, over `update_nbbo`.
use luv_flicker.Base.{
  ℕ, ◌≡◌, refl, inl, inr, true, false, List, ◌∷◌, if◌then◌else◌, ◌==◌, leb→le, arith, Bool-cases,
}
use luv_flicker.Luld.{
  LuldBands, LuldConfig, LuldState, at_limit, within_bands, timed_out, enter, pause, on_limit,
  on_straddle, is_paused, update_nbbo,
}
use luv_flicker.Luld.Quotes.{Quote, beyond, Beyond, Fits, Beyond-Fits, Expired, StateTells}

module _ (config : LuldConfig) (lower upper : ℕ) where
  pub record Tells (qs : List Quote) (b : LuldBands) : Type 0 where
    pub low : b.lower_band ≡ lower
    pub high : b.upper_band ≡ upper
    pub told : StateTells lower upper config.straddle_timeout_ns b.straddle_start_ns b.state qs

  entered :
      (b : LuldBands) (q : Quote) (qs : List Quote)
      → b.lower_band ≡ lower
      → b.upper_band ≡ upper
      → beyond lower upper q ≡ true
      → Tells (q ∷ qs) (enter b LuldState.limit_state q.now_ns)
        × Tells (q ∷ qs) (enter b LuldState.straddle q.now_ns)
  unfolding enter
  entered b q qs low high out = (
    record { low = low; high = high; told = Beyond.first q qs out },
    record { low = low; high = high; told = Beyond.first q qs out },
  )

  paused :
      (b : LuldBands) (q : Quote) (qs : List Quote)
      → b.lower_band ≡ lower
      → b.upper_band ≡ upper
      → Beyond lower upper b.straddle_start_ns (q ∷ qs)
      → timed_out config b q.now_ns ≡ true
      → Fits config.straddle_timeout_ns (q ∷ qs)
      → Tells (q ∷ qs) (pause b)
  unfolding pause timed_out
  paused b q qs low high out late fits = record {
    low = low;
    high = high;
    told = Expired.now b.straddle_start_ns q qs out (
        ground
          (arith, leb→le _ _ late, Beyond-Fits lower upper config.straddle_timeout_ns out fits));
  }

  -- A quote beyond the bands, in a state that has lasted.
  lasting :
      (b : LuldBands) (q : Quote) (qs : List Quote)
      → b.lower_band ≡ lower
      → b.upper_band ≡ upper
      → Beyond lower upper b.straddle_start_ns (q ∷ qs)
      → StateTells lower upper config.straddle_timeout_ns b.straddle_start_ns b.state (q ∷ qs)
      → Fits config.straddle_timeout_ns (q ∷ qs)
      → Tells (q ∷ qs) (if timed_out config b q.now_ns then pause b else b)
  lasting b q qs low high out told fits = elim (Bool-cases (timed_out config b q.now_ns)) [
    | inl late ↦ rw late (paused b q qs low high out late fits)
    | inr early ↦ rw early (record { low = low; high = high; told = told })
  ]

  module _ (b : LuldBands) (q : Quote) (qs : List Quote) (low : b.lower_band ≡ lower)
      (high : b.upper_band ≡ upper) (out : beyond lower upper q ≡ true)
      (fits : Fits config.straddle_timeout_ns (q ∷ qs)) where
    on_limit-Tells :
        (s : LuldState)
        → b.state ≡ s
        → is_paused s ≡ false
        → StateTells lower upper config.straddle_timeout_ns b.straddle_start_ns s qs
        → Tells (q ∷ qs) (on_limit config b s q.now_ns)
    unfolding on_limit
    on_limit-Tells LuldState.normal e p told = (entered b q qs low high out).0
    on_limit-Tells LuldState.straddle e p told =
        let longer = Beyond.longer b.straddle_start_ns q qs told out in
        lasting b q qs low high longer (rw e longer) fits
    on_limit-Tells LuldState.limit_state e p told =
        let longer = Beyond.longer b.straddle_start_ns q qs told out in
        lasting b q qs low high longer (rw e longer) fits
    on_limit-Tells LuldState.trading_pause e p told = absurd (ground (arith, p))

    on_straddle-Tells :
        (s : LuldState)
        → b.state ≡ s
        → is_paused s ≡ false
        → StateTells lower upper config.straddle_timeout_ns b.straddle_start_ns s qs
        → Tells (q ∷ qs) (on_straddle config b s q.now_ns)
    unfolding on_straddle
    on_straddle-Tells LuldState.normal e p told = (entered b q qs low high out).1
    on_straddle-Tells LuldState.straddle e p told =
        let longer = Beyond.longer b.straddle_start_ns q qs told out in
        lasting b q qs low high longer (rw e longer) fits
    on_straddle-Tells LuldState.limit_state e p told = record {
      low = low;
      high = high;
      told = rw e (Beyond.longer b.straddle_start_ns q qs told out);
    }
    on_straddle-Tells LuldState.trading_pause e p told = absurd (ground (arith, p))

  still_paused :
      (b : LuldBands) (q : Quote) (qs : List Quote) (s : LuldState)
      → is_paused s ≡ true
      → StateTells lower upper config.straddle_timeout_ns b.straddle_start_ns s qs
      → StateTells lower upper config.straddle_timeout_ns b.straddle_start_ns s (q ∷ qs)
  still_paused b q qs LuldState.trading_pause p told = Expired.before q qs told
  still_paused b q qs LuldState.normal p told = absurd (ground (arith, p))
  still_paused b q qs LuldState.straddle p told = absurd (ground (arith, p))
  still_paused b q qs LuldState.limit_state p told = absurd (ground (arith, p))

  limit-beyond :
      (b : LuldBands) (q : Quote)
      → b.lower_band ≡ lower
      → b.upper_band ≡ upper
      → at_limit b q.best_bid q.best_ask ≡ true
      → beyond lower upper q ≡ true
  unfolding at_limit beyond
  limit-beyond b q low high h = ground (arith, low, high, h)

  outside-beyond :
      (b : LuldBands) (q : Quote)
      → b.lower_band ≡ lower
      → b.upper_band ≡ upper
      → within_bands b q.best_bid q.best_ask ≡ false
      → beyond lower upper q ≡ true
  unfolding within_bands beyond
  outside-beyond b q low high h = ground (arith, low, high, h)

  pub update_nbbo-Tells :
      (b : LuldBands) (q : Quote) (qs : List Quote)
      → b.reference_price == 0 ≡ false
      → Tells qs b
      → Fits config.straddle_timeout_ns (q ∷ qs)
      → Tells (q ∷ qs) (update_nbbo config b q.best_bid q.best_ask q.now_ns)
  unfolding update_nbbo enter
  update_nbbo-Tells b q qs set t fits = elim (Bool-cases (is_paused b.state)) [
    | inl p ↦
        rw (update_nbbo, set, p)
          (record { low = t.low; high = t.high; told = still_paused b q qs b.state p t.told })
    | inr p ↦ elim (Bool-cases (at_limit b q.best_bid q.best_ask)) [
      | inl limit ↦
          rw (update_nbbo, set, p, limit)
            (on_limit-Tells b q qs t.low t.high (limit-beyond b q t.low t.high limit) fits b.state
              refl p t.told)
      | inr no_limit ↦ elim (Bool-cases (within_bands b q.best_bid q.best_ask)) [
        | inl inside ↦
            rw (update_nbbo, set, p, no_limit, inside)
              (record { low = t.low; high = t.high; told = tt })
        | inr outside ↦
            rw (update_nbbo, set, p, no_limit, outside)
              (on_straddle-Tells b q qs t.low t.high (outside-beyond b q t.low t.high outside) fits
                b.state refl p t.told)
      ]
    ]
  ]
