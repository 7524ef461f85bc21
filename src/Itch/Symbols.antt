-- ===== src/Itch/Symbols.antt =====
-- luv_decode_itch.hpp, `SymbolTable`: the open-addressing table from ticker keys to symbol indices.
-- Its arrays are functions from slots; `& kMask` is the remainder modulo the capacity. A ticker
-- pointer is the key that is loaded through it, or nothing if it is null.
use luv_flicker.Base.{
  ℕ, zero, suc, ◌+◌, ◌*◌, ◌/◌, ◌%◌, ◌^◌, ◌<◌, ◌≡◌, ◌⊎◌, Bool, true, false, ◌||◌, Option, none, some,
  if◌then◌else◌, ◌==◌, leb, update, arith, inl, inr, Bool-cases, refl,
}
use luv_flicker.Arena.Config

pub record SymbolTable : Type 0 where
  pub keys : ℕ → ℕ
  pub values : ℕ → ℕ
  pub count : ℕ

abbrev pub capacity : ℕ
capacity = Config.symbols * 2

abbrev pub not_found : ℕ
not_found = 0xFFFF

-- The shift is 64 - log2(1024).
pub hash : ℕ → ℕ
hash key = ((key * 0x9E37_79B9_7F4A_7C15) % 2 ^ 64) / 2 ^ 54

abbrev pub next_slot : ℕ → ℕ
next_slot slot = (slot + 1) % capacity

pub clear : SymbolTable → SymbolTable
clear t = record t { keys = λ i. 0; values = λ i. not_found; count = 0 }

-- `while (_values[slot] != kNotFound)`, with the slots left as fuel: the slot that holds the key,
-- or the free slot. At most half of the slots are taken, so there is a free one.
pub data Landing : Type 0 where
  duplicate vacant : ℕ → Landing
  wandering : Landing

pub walk : SymbolTable → ℕ → ℕ → ℕ → Landing
walk t key zero slot = wandering
walk t key (suc n) slot =
    let rest = walk t key n (next_slot slot) in
    if t.values slot == not_found
    then vacant slot
    else if t.keys slot == key
    then duplicate slot
    else rest

land : SymbolTable → ℕ → ℕ → Landing → SymbolTable × Bool
land t key idx (duplicate slot) = (record t { values = update t.values slot idx }, true)
land t key idx (vacant slot) = (
  record t {
    keys = update t.keys slot key;
    values = update t.values slot idx;
    count = t.count + 1;
  },
  true,
)
land t key idx wandering = (t, false)

pub insert : SymbolTable → Option ℕ → ℕ → SymbolTable × Bool
unfolding land
insert t none idx = (t, false)
insert t (some key) idx =
    if leb Config.symbols idx || leb (capacity / 2) t.count
    then (t, false)
    else land t key idx (walk t key capacity (hash key))

find : SymbolTable → ℕ → ℕ → ℕ → ℕ
find t key zero slot = not_found
find t key (suc n) slot =
    let rest = find t key n (next_slot slot) in
    if t.values slot == not_found
    then not_found
    else if t.keys slot == key
    then t.values slot
    else rest

pub lookup : SymbolTable → ℕ → ℕ
lookup t key = find t key (capacity / 2) (hash key)

-- Every slot is free or holds the index of a symbol of the book.
pub record IsValid (t : SymbolTable) : Type 0 where
  pub in_book : (slot : ℕ) → (t.values slot ≡ not_found) ⊎ (t.values slot < Config.symbols)

find-IsValid :
    (t : SymbolTable) (key n slot : ℕ)
    → IsValid t
    → (find t key n slot ≡ not_found) ⊎ (find t key n slot < Config.symbols)
unfolding find
find-IsValid t key zero slot v = inl refl
find-IsValid t key (suc n) slot v =
    ground (arith, v.in_book slot, find-IsValid t key n (next_slot slot) v)

-- What a valid table looks up is "not found" or a symbol of the book.
pub lookup-IsValid :
    (t : SymbolTable) (key : ℕ)
    → IsValid t
    → (lookup t key ≡ not_found) ⊎ (lookup t key < Config.symbols)
unfolding lookup
lookup-IsValid t key v = find-IsValid t key (capacity / 2) (hash key) v

pub clear-IsValid : (t : SymbolTable) → IsValid (clear t)
unfolding clear
clear-IsValid t = record { in_book = λ slot. inl refl }

land-IsValid :
    (t : SymbolTable) (key idx : ℕ) (w : Landing)
    → idx < Config.symbols
    → IsValid t
    → IsValid (land t key idx w).0
unfolding land
land-IsValid t key idx (duplicate s) h v = record {
  in_book = λ slot. ground (arith, v.in_book slot);
}
land-IsValid t key idx (vacant s) h v = record { in_book = λ slot. ground (arith, v.in_book slot) }
land-IsValid t key idx wandering h v = v

-- `insert`, whether it succeeds or not, keeps every slot free or a symbol index of the book.
pub insert-IsValid :
    (t : SymbolTable) (key : Option ℕ) (idx : ℕ) → IsValid t → IsValid (insert t key idx).0
unfolding insert
insert-IsValid t none idx v = v
insert-IsValid t (some key) idx v =
    elim (Bool-cases (leb Config.symbols idx || leb (capacity / 2) t.count)) [
      | inl refused ↦ rw refused v
      | inr taken ↦ rw taken (land-IsValid t key idx _ (ground arith) v)
    ]
