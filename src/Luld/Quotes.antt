-- ===== src/Luld/Quotes.antt =====
-- The quotes that luv_luld.hpp sees, for its pauses: those beyond the bands, and for how long.
use luv_flicker.Base.{
  ℕ, ◌+◌, ◌^◌, ◌≤◌, ◌<◌, ◌≡◌, Bool, true, not, ◌&&◌, ◌||◌, List, [], ◌∷◌, ltb, leb,
}
use luv_flicker.Luld.{LuldState}

pub record Quote : Type 0 where
  pub best_bid : ℕ
  pub best_ask : ℕ
  pub now_ns : ℕ

-- A quote is at a band, or not within both.
unfoldable pub beyond : (lower upper : ℕ) → Quote → Bool
beyond lower upper q =
    leb upper q.best_bid
    || (leb q.best_ask lower && ltb 0 q.best_ask)
    || not (ltb lower q.best_bid && ltb q.best_ask upper)

-- The quotes seen, the last one first: all from the one at time `start` on are beyond the bands.
pub data Beyond (lower upper : ℕ) : (start : ℕ) → List Quote → Type 0 where
  first :
      (q : Quote) (qs : List Quote)
      → beyond lower upper q ≡ true
      → Beyond lower upper q.now_ns (q ∷ qs)
  longer :
      (start : ℕ) (q : Quote) (qs : List Quote)
      → Beyond lower upper start qs
      → beyond lower upper q ≡ true
      → Beyond lower upper start (q ∷ qs)

-- The times of the quotes, the timeout added, fit 64 bits.
abbrev pub Fits : (timeout : ℕ) → List Quote → Type 0
Fits timeout [] = Unit
Fits timeout (q ∷ qs) = (q.now_ns + timeout < 2 ^ 64) × Fits timeout qs

pub Beyond-Fits :
    (lower upper timeout : ℕ) {start : ℕ} {qs : List Quote}
    → Beyond lower upper start qs
    → Fits timeout qs
    → start + timeout < 2 ^ 64
Beyond-Fits lower upper timeout (first q qs out) fits = fits.0
Beyond-Fits lower upper timeout (longer start q qs older out) fits =
    Beyond-Fits lower upper timeout older fits.1

-- At some quote all quotes had been beyond the bands since one that was a timeout or more earlier.
pub data Expired (lower upper timeout : ℕ) : List Quote → Type 0 where
  now :
      (start : ℕ) (q : Quote) (qs : List Quote)
      → Beyond lower upper start (q ∷ qs)
      → start + timeout ≤ q.now_ns
      → Expired lower upper timeout (q ∷ qs)
  before :
      (q : Quote) (qs : List Quote)
      → Expired lower upper timeout qs
      → Expired lower upper timeout (q ∷ qs)

-- What the state says of the quotes seen.
abbrev pub StateTells : (lower upper timeout start : ℕ) → LuldState → List Quote → Type 0
StateTells lower upper timeout start LuldState.normal qs = Unit
StateTells lower upper timeout start LuldState.straddle qs = Beyond lower upper start qs
StateTells lower upper timeout start LuldState.limit_state qs = Beyond lower upper start qs
StateTells lower upper timeout start LuldState.trading_pause qs = Expired lower upper timeout qs

-- The quotes in front of those seen before, the last one first.
unfoldable pub seen : List Quote → List Quote → List Quote
seen [] earlier = earlier
seen (q ∷ qs) earlier = seen qs (q ∷ earlier)
