-- ===== src/Luld/Pause.antt =====
-- When luv_luld.hpp pauses trading.
use luv_flicker.Base.{
  ℕ, ◌<◌, ◌≡◌, refl, true, false, List, [], ◌∷◌, if◌then◌else◌, ◌==◌, arith, if_cases,
}
use luv_flicker.Luld.{
  LuldBands, LuldConfig, LuldState, at_limit, within_bands, timed_out, enter, pause, on_limit,
  on_straddle, is_paused, update_nbbo,
}
use luv_flicker.Luld.Quotes.{Quote, Fits, Expired, StateTells, seen}
use luv_flicker.Luld.Told.{Tells, update_nbbo-Tells}

unfoldable pub update_all : LuldConfig → LuldBands → List Quote → LuldBands
update_all config b [] = b
update_all config b (q ∷ qs) =
    update_all config (update_nbbo config b q.best_bid q.best_ask q.now_ns) qs

module _ (config : LuldConfig) (b : LuldBands) (now_ns : ℕ) where
  SameReference : LuldBands → Type 0
  SameReference x = x.reference_price ≡ b.reference_price

  timeout-SameReference : SameReference (if timed_out config b now_ns then pause b else b)
  unfolding SameReference pause
  timeout-SameReference = if_cases SameReference (timed_out config b now_ns) (pause b) b refl refl

  on_limit-SameReference : (s : LuldState) → SameReference (on_limit config b s now_ns)
  unfolding SameReference on_limit enter
  on_limit-SameReference LuldState.normal = refl
  on_limit-SameReference LuldState.straddle = timeout-SameReference
  on_limit-SameReference LuldState.limit_state = timeout-SameReference
  on_limit-SameReference LuldState.trading_pause = refl

  on_straddle-SameReference : (s : LuldState) → SameReference (on_straddle config b s now_ns)
  unfolding SameReference on_straddle enter
  on_straddle-SameReference LuldState.normal = refl
  on_straddle-SameReference LuldState.straddle = timeout-SameReference
  on_straddle-SameReference LuldState.limit_state = refl
  on_straddle-SameReference LuldState.trading_pause = refl

  update_nbbo-reference :
      (bid ask : ℕ) → (update_nbbo config b bid ask now_ns).reference_price ≡ b.reference_price
  unfolding update_nbbo enter SameReference
  update_nbbo-reference bid ask = if_cases SameReference (b.reference_price == 0) b _ refl (
      if_cases SameReference (is_paused b.state) b _ refl (
        if_cases SameReference (at_limit b bid ask) (on_limit config b b.state now_ns) _
          (on_limit-SameReference b.state)
          (if_cases SameReference (within_bands b bid ask) (enter b LuldState.normal 0)
            (on_straddle config b b.state now_ns) refl (on_straddle-SameReference b.state))))

update_all-Tells :
    (config : LuldConfig) (lower upper : ℕ) (b : LuldBands) (qs earlier : List Quote)
    → b.reference_price == 0 ≡ false
    → Tells config lower upper earlier b
    → Fits config.straddle_timeout_ns earlier
    → Fits config.straddle_timeout_ns qs
    → Tells config lower upper (seen qs earlier) (update_all config b qs)
unfolding update_all seen
update_all-Tells config lower upper b [] earlier set t known fits = t
update_all-Tells config lower upper b (q ∷ qs) earlier set t known fits =
    let next = update_nbbo config b q.best_bid q.best_ask q.now_ns in
    let still : next.reference_price == 0 ≡ false =
      rw (update_nbbo-reference config b q.now_ns q.best_bid q.best_ask) set in
    update_all-Tells config lower upper next qs (q ∷ earlier) still
      (update_nbbo-Tells config lower upper b q earlier set t (fits.0, known)) (fits.0, known)
      fits.1

paused-tells :
    (lower upper timeout start : ℕ) (s : LuldState) (qs : List Quote)
    → is_paused s ≡ true
    → StateTells lower upper timeout start s qs
    → Expired lower upper timeout qs
paused-tells lower upper timeout start LuldState.trading_pause qs p told = told
paused-tells lower upper timeout start LuldState.normal qs p told = absurd (ground (arith, p))
paused-tells lower upper timeout start LuldState.straddle qs p told = absurd (ground (arith, p))
paused-tells lower upper timeout start LuldState.limit_state qs p told = absurd (ground (arith, p))

normal-tells :
    (lower upper timeout start : ℕ) (s : LuldState)
    → s ≡ LuldState.normal
    → StateTells lower upper timeout start s []
normal-tells lower upper timeout start s e = rw e tt

-- From a normal state with a reference price, after quotes whose times plus the timeout fit 64 bits, trading is paused
-- only if at one of them all quotes had been beyond the bands (at a band, or not within both) since one whose time is
-- the timeout or more earlier.
pub update_all-Expired :
    (config : LuldConfig) (b : LuldBands) (qs : List Quote)
    → 0 < b.reference_price
    → b.state ≡ LuldState.normal
    → Fits config.straddle_timeout_ns qs
    → is_paused (update_all config b qs).state ≡ true
    → Expired b.lower_band b.upper_band config.straddle_timeout_ns (seen qs [])
update_all-Expired config b qs set e fits p =
    let start : Tells config b.lower_band b.upper_band [] b = record {
      low = refl;
      high = refl;
      told =
          normal-tells b.lower_band b.upper_band config.straddle_timeout_ns b.straddle_start_ns
            b.state e;
    } in
    let known : b.reference_price == 0 ≡ false = ground arith in
    let final = update_all-Tells config b.lower_band b.upper_band b qs [] known start tt fits in
    paused-tells b.lower_band b.upper_band config.straddle_timeout_ns
      (update_all config b qs).straddle_start_ns (update_all config b qs).state (seen qs []) p
      final.told
