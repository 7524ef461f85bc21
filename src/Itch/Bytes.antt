-- ===== src/Itch/Bytes.antt =====
-- luv_decode_itch.hpp, `detail`: multi-byte reads. Memory from a pointer on is a function from
-- offsets to bytes. The host is little-endian, so `be16`, `be32` and `be64` swap, and a ticker is
-- loaded as it stands.
use luv_flicker.Base.{ℕ, ◌+◌, ◌*◌, ◌^◌}

abbrev pub Memory : Type 0
Memory = ℕ → ℕ

unfoldable pub be16 : Memory → ℕ → ℕ
be16 m p = m p * 2 ^ 8 + m (p + 1)

unfoldable pub be32 : Memory → ℕ → ℕ
be32 m p = m p * 2 ^ 24 + m (p + 1) * 2 ^ 16 + m (p + 2) * 2 ^ 8 + m (p + 3)

unfoldable pub be64 : Memory → ℕ → ℕ
unfolding be32
be64 m p = be32 m p * 2 ^ 32 + be32 m (p + 4)

-- `(hi << 32) | lo`; `lo` is below 2 ^ 32.
unfoldable pub be_timestamp48 : Memory → ℕ → ℕ
unfolding be16 be32
be_timestamp48 m p = be16 m p * 2 ^ 32 + be32 m (p + 2)

unfoldable pub load_ticker_key : Memory → ℕ → ℕ
load_ticker_key m p =
    m p
    + m (p + 1) * 2 ^ 8
    + m (p + 2) * 2 ^ 16
    + m (p + 3) * 2 ^ 24
    + m (p + 4) * 2 ^ 32
    + m (p + 5) * 2 ^ 40
    + m (p + 6) * 2 ^ 48
    + m (p + 7) * 2 ^ 56
