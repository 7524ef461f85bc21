-- ===== src/OuchFeed/Local.antt =====
-- The bytes that `Parser::parse` of luv_ouch.hpp reads.
use luv_flicker.Base.{
  ℕ, zero, suc, ◌+◌, ◌*◌, ◌^◌, ◌<◌, ◌≤◌, ◌≡◌, refl, false, ◌||◌, some, ◌==◌, ltb, arith,
}
use luv_flicker.Itch.Bytes.{Memory}
use luv_flicker.OuchFeed.{Event, be32, be64, be64_loop, parse_body, parse, max_body_length}

-- Two memories agree below an offset.
abbrev Agree : Memory → Memory → ℕ → Type 0
Agree m m' n = (i : ℕ) → i < n → m' i ≡ m i

module _ (m m' : Memory) where
  be32-Agree : (p n : ℕ) → Agree m m' n → p + 4 ≤ n → be32 m' p ≡ be32 m p
  unfolding be32
  be32-Agree p n same h = omega (
    arith,
    same p (omega arith),
    same (p + 1) (omega arith),
    same (p + 2) (omega arith),
    same (p + 3) (omega arith),
  )

  be64_loop-Agree :
      (k p n v : ℕ) → Agree m m' n → p + k ≤ n → be64_loop k m' p v ≡ be64_loop k m p v
  unfolding be64_loop
  be64_loop-Agree zero p n v same h = refl
  be64_loop-Agree (suc k) p n v same h =
      rw (same p (omega arith)) (be64_loop-Agree k (p + 1) n _ same (omega arith))

  be64-Agree : (n : ℕ) → Agree m m' n → 11 ≤ n → be64 m' 3 ≡ be64 m 3
  unfolding be64
  be64-Agree n same h = be64_loop-Agree 8 3 n 0 same h

  parse_body-Agree :
      (n id : ℕ) → 9 ≤ n → Agree m m' (n + 2) → parse_body m' 2 n id ≡ parse_body m 2 n id
  unfolding parse_body
  parse_body-Agree n id low same =
      let tag = same 2 (omega arith) in
      ground (arith, tag, same 11, be32-Agree 11 (n + 2) same, be32-Agree 15 (n + 2) same)

-- What it takes for the parser to accept.
record Accepts (m : Memory) (length : ℕ) (event : Event) (consumed : ℕ) : Type 0 where
  low : 9 ≤ m 0 * 2 ^ 8 + m 1
  high : m 0 * 2 ^ 8 + m 1 ≤ 17
  fits : consumed ≤ length
  named : be64 m 3 == 0 ≡ false
  body : parse_body m 2 (m 0 * 2 ^ 8 + m 1) (be64 m 3) ≡ some event
  size : consumed ≡ m 0 * 2 ^ 8 + m 1 + 2

parse-Accepts :
    (m : Memory) (length : ℕ) (event : Event) (consumed : ℕ)
    → parse m length ≡ some (event, consumed)
    → Accepts m length event consumed
unfolding parse
parse-Accepts m length event consumed h = record {
  low = ground (arith, h);
  high = ground (arith, h);
  fits = ground (arith, h);
  named = ground (arith, h);
  body = ground (arith, h);
  size = ground (arith, h);
}

Accepts-parse :
    (m : Memory) (length : ℕ) (event : Event) (consumed : ℕ)
    → Accepts m length event consumed
    → parse m length ≡ some (event, consumed)
unfolding parse
Accepts-parse m length event consumed a =
    let short : ltb length 2 ≡ false = ground (arith, a.low, a.fits, a.size) in
    let in_range : ltb (m 0 * 2 ^ 8 + m 1) 9
          || ltb max_body_length (m 0 * 2 ^ 8 + m 1)
          || ltb length (m 0 * 2 ^ 8 + m 1 + 2)
        ≡ false =
      ground (arith, a.low, a.high, a.fits, a.size) in
    rw (parse, short, in_range, a.named, a.body, a.size) refl

-- What the parser accepts lies within the bytes it is given, is 11 to 19 bytes long, and is
-- accepted the same way with any other bytes behind it.
pub parse-local :
    (m m' : Memory) (length length' : ℕ) (event : Event) (consumed : ℕ)
    → parse m length ≡ some (event, consumed)
    → consumed ≤ length'
    → ((i : ℕ) → i < consumed → m' i ≡ m i)
    → (11 ≤ consumed)
      × (consumed ≤ 19)
      × (consumed ≤ length)
      × (parse m' length' ≡ some (event, consumed))
parse-local m m' length length' event consumed h fits same =
    let a = parse-Accepts m length event consumed h in
    let first : m' 0 ≡ m 0 = same 0 (omega (arith, a.size)) in
    let second : m' 1 ≡ m 1 = same 1 (omega (arith, a.low, a.size)) in
    let n = m 0 * 2 ^ 8 + m 1 in
    let id = be64-Agree m m' consumed same (omega (arith, a.low, a.size)) in
    let agree : Agree m m' (n + 2) = rw (← a.size) same in
    let low : 11 ≤ consumed = omega (arith, a.low, a.size) in
    let high : consumed ≤ 19 = omega (arith, a.high, a.size) in
    let again : Accepts m' length' event consumed = record {
      low = rw (first, second) a.low;
      high = rw (first, second) a.high;
      fits = fits;
      named = rw id a.named;
      body = rw (first, second, id, parse_body-Agree m m' n (be64 m 3) a.low agree) a.body;
      size = rw (first, second) a.size;
    } in
    (low, high, a.fits, Accepts-parse m' length' event consumed again)
