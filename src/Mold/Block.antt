-- ===== src/Mold/Block.antt =====
-- The message block of luv_moldudp64.hpp: `validate_message_block` and the iterator agree.
use luv_flicker.Base.{
  ℕ, zero, suc, ◌+◌, ◌-◌, ◌≤◌, ◌≡◌, ◌↔◌, true, false, Option, none, some, arith, ltb, ◌==◌, ◌||◌,
  ap, Bool-cases, inl, inr,
}
use luv_flicker.Itch.Bytes.{Memory}
use luv_flicker.Mold.{
  MessageIterator, header_size, read_be16, validate_from, validate_message_block, iterate, next,
  valid,
}

-- The iterator after `n` messages, or nothing if one of the calls gave none.
abbrev pub drain : ℕ → MessageIterator → Option MessageIterator
drain zero it = some it
drain (suc n) it = elim (next it).0 [ none ↦ none | some message ↦ drain n (next it).1 ]

module _ (m : Memory) (size : ℕ) where
  abbrev pub standing : ℕ → MessageIterator
  standing o = record { bytes = some m; size = size; offset = o; invalid = false }

  -- One step of either loop.
  next-standing :
      (o : ℕ)
      → o ≤ size
      → let length = read_be16 m o in
        ((ltb (size - o) 2 || length == 0 || ltb (size - (o + 2)) length) ≡ true
          → (next (standing o)).0 ≡ none)
        × ((ltb (size - o) 2 || length == 0 || ltb (size - (o + 2)) length) ≡ false
            → ((next (standing o)).0 ≡ some (o + 2, length))
              × ((next (standing o)).1 ≡ standing (o + 2 + length)))
  unfolding next
  next-standing o h = (λ e. ground arith, λ e. (ground arith, ground arith))

  validate_from-drain :
      (n o : ℕ)
      → o ≤ size
      → validate_from m size n o ≡ true
      → drain n (standing o) ≡ some (standing size)
  unfolding validate_from
  validate_from-drain zero o h e = ground arith
  validate_from-drain (suc n) o h e =
      let length : ℕ = read_be16 m o in
      elim (Bool-cases (ltb (size - o) 2 || length == 0 || ltb (size - (o + 2)) length)) [
        | inl bad ↦ absurd (ground arith)
        | inr good ↦
            rw (((next-standing o h).1 good).0, drain, ((next-standing o h).1 good).1)
              (validate_from-drain n (o + 2 + length) (ground arith) (ground arith))
      ]

  drain-validate_from :
      (n o : ℕ)
      → o ≤ size
      → drain n (standing o) ≡ some (standing size)
      → validate_from m size n o ≡ true
  unfolding validate_from
  drain-validate_from zero o h e =
      let same : o ≡ size =
        ap (λ (x : Option MessageIterator). elim x [ none ↦ 0 | some it ↦ it.offset ]) e in
      ground arith
  drain-validate_from (suc n) o h e =
      let length : ℕ = read_be16 m o in
      elim (Bool-cases (ltb (size - o) 2 || length == 0 || ltb (size - (o + 2)) length)) [
        | inl bad ↦ absurd (ground (arith, (next-standing o h).0 bad))
        | inr good ↦ ground (
          arith,
          drain-validate_from n (o + 2 + length) (ground arith)
              (rw (((next-standing o h).1 good).0, drain, ((next-standing o h).1 good).1) at e),
        )
      ]

-- A packet of at least header size passes `validate_message_block` for a count exactly when an
-- iterator over it gives that many messages, one after another, and then stands valid at the very
-- end of the packet, where it gives none.
pub validate_message_block_iff :
    (m : Memory) (size message_count : ℕ)
    → header_size ≤ size
    → ((validate_message_block (some m) size message_count ≡ true)
        ↔ (drain message_count (iterate (some m) size) ≡ some (standing m size size)))
      × ((next (standing m size size)).0 ≡ none)
      × (valid (next (standing m size size)).1 ≡ true)
unfolding validate_message_block iterate valid next
validate_message_block_iff m size n h = (
  (
    λ e. validate_from-drain m size n header_size h (ground arith),
    λ e. ground (arith, drain-validate_from m size n header_size h e),
  ),
  ground arith,
  ground arith,
)
