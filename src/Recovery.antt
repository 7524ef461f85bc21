-- ===== src/Recovery.antt =====
-- luv_recovery.hpp: the write-ahead log of the open orders and its replay. The file is the list of its
-- records; whether the system writes and syncs is an argument. A write that fails leaves no record.
pub mod Replay
mod Tests
use luv_flicker.Base.{
  ℕ, zero, suc, ◌+◌, ◌-◌, ◌*◌, ◌/◌, ◌%◌, ◌^◌, bit_xor, ℤ, pos, negsuc, ◌-ℤ◌, leb_ℤ, ltb_ℤ, eqb_ℤ,
  Bool, true, false, not, ◌&&◌, ◌||◌, List, [], ◌∷◌, ◌++◌, Option, none, some, if◌then◌else◌, ◌==◌,
  leb, length, set, get_or, take,
}
use luv_flicker.Exec.Types.{as_u64}

pub data RecoveryEventType : Type 0 where
  add fill cancel ack new replace terminal_fill : RecoveryEventType

abbrev pub code : RecoveryEventType → ℕ
code add = 1
code fill = 2
code cancel = 3
code ack = 4
code new = 5
code replace = 6
code terminal_fill = 7

abbrev pub record_version : ℕ
record_version = 2

abbrev pub record_magic : ℕ
record_magic = 0x3156_4352

pub record RecoveryEvent : Type 0 where
  pub type : RecoveryEventType
  pub order_id : ℕ
  pub quantity : ℤ
  pub price : ℤ
  pub side : ℕ
  pub timestamp_ns : ℕ

pub record RecoveryRecord : Type 0 where
  pub magic : ℕ
  pub version : ℕ
  pub type : ℕ
  pub sequence : ℕ
  pub order_id : ℕ
  pub quantity : ℤ
  pub price : ℤ
  pub side : ℕ
  pub timestamp_ns : ℕ
  pub stored_checksum : ℕ

pub record RecoveredOrder : Type 0 where
  pub order_id : ℕ
  pub remaining : ℤ
  pub price : ℤ
  pub side : ℕ
  pub timestamp_ns : ℕ

pub record RecoveryLedger : Type 0 where
  pub is_open : Bool
  pub sequence : ℕ
  pub file : List RecoveryRecord

-- The bytes of a field of `n` bytes, the lowest first.
unfoldable pub little_endian : ℕ → ℕ → List ℕ
little_endian zero v = []
little_endian (suc n) v = v % 256 ∷ little_endian n (v / 256)

-- The 56 bytes before the checksum, the reserved ones zero.
unfoldable pub record_bytes : RecoveryRecord → List ℕ
unfolding little_endian
record_bytes r =
    little_endian 4 r.magic
    ++ little_endian 1 r.version
    ++ little_endian 1 r.type
    ++ little_endian 2 0
    ++ little_endian 8 r.sequence
    ++ little_endian 8 r.order_id
    ++ little_endian 8 (as_u64 r.quantity)
    ++ little_endian 8 (as_u64 r.price)
    ++ little_endian 1 r.side
    ++ little_endian 7 0
    ++ little_endian 8 r.timestamp_ns

unfoldable pub hash_bytes : ℕ → List ℕ → ℕ
hash_bytes hash [] = hash
hash_bytes hash (b ∷ bs) = hash_bytes ((bit_xor hash b * 16_777_619) % 2 ^ 32) bs

unfoldable pub checksum : RecoveryRecord → ℕ
unfolding hash_bytes record_bytes
checksum r = hash_bytes 2_166_136_261 (record_bytes r)

-- The record of an event, as `append_with_side` fills it, without and with its checksum.
unfoldable pub bare_record : ℕ → RecoveryEvent → RecoveryRecord
bare_record sequence e = record {
  magic = record_magic;
  version = record_version;
  type = code e.type;
  sequence = sequence;
  order_id = e.order_id;
  quantity = e.quantity;
  price = e.price;
  side = e.side;
  timestamp_ns = e.timestamp_ns;
  stored_checksum = 0;
}

unfoldable pub make_record : ℕ → RecoveryEvent → RecoveryRecord
unfolding checksum bare_record
make_record sequence e = record (bare_record sequence e) {
  stored_checksum = checksum (bare_record sequence e);
}

unfoldable pub append_and_flush :
    RecoveryLedger → RecoveryEvent → (written synced : Bool) → RecoveryLedger × Bool
unfolding make_record
append_and_flush l e written synced =
    let longer = record l { file = l.file ++ (make_record l.sequence e ∷ []) } in
    if not l.is_open || (e.order_id == 0) || leb_ℤ e.quantity (pos 0) || not written
    then (l, false)
    else if not synced
    then (longer, false)
    else (record longer { sequence = (l.sequence + 1) % 2 ^ 64 }, true)

-- `open` on the records of a file that the system opens.
unfoldable pub open_ledger : RecoveryLedger → List RecoveryRecord → RecoveryLedger × Bool
open_ledger l file =
    if l.is_open
    then (l, false)
    else (record { is_open = true; sequence = length file; file = file }, true)

abbrev pub no_order : RecoveredOrder
no_order = record { order_id = 0; remaining = pos 0; price = pos 0; side = 0; timestamp_ns = 0 }

-- The last order takes the place of the one that goes.
unfoldable pub remove : List RecoveredOrder → ℕ → List RecoveredOrder
remove orders index =
    let last = length orders - 1 in take last (set orders index (get_or orders last no_order))

-- The first order of an id, with its place.
unfoldable pub search : ℕ → List RecoveredOrder → Option (ℕ × RecoveredOrder)
search order_id [] = none
search order_id (o ∷ os) =
    let rest = search order_id os in
    if o.order_id == order_id
    then some (0, o)
    else elim rest [ none ↦ none | some (i, x) ↦ some (suc i, x) ]

-- A record for an order that is known.
unfoldable pub apply_known :
    RecoveryRecord → List RecoveredOrder → ℕ → RecoveredOrder → Option (List RecoveredOrder)
unfolding remove
apply_known r orders index o =
    if r.type == code terminal_fill
    then if leb_ℤ r.quantity (pos 0) || ltb_ℤ o.remaining r.quantity
      then none
      else some (remove orders index)
    else if r.type == code fill
    then if ltb_ℤ o.remaining r.quantity
      then none
      else if eqb_ℤ (o.remaining -ℤ r.quantity) (pos 0)
      then some
          (remove (set orders index (record o { remaining = o.remaining -ℤ r.quantity })) index)
      else some (set orders index (record o { remaining = o.remaining -ℤ r.quantity }))
    else if r.type == code replace
    then if leb_ℤ r.quantity (pos 0)
      then none
      else some (
          set orders index (record o {
            remaining = r.quantity;
            price = if ltb_ℤ (pos 0) r.price then r.price else o.price;
          }))
    else if r.type == code cancel
    then some (remove orders index)
    else none

unfoldable pub apply : RecoveryRecord → ℕ → List RecoveredOrder → Option (List RecoveredOrder)
unfolding search apply_known
apply r capacity orders =
    let fresh : RecoveredOrder = record {
      order_id = r.order_id;
      remaining = r.quantity;
      price = r.price;
      side = r.side;
      timestamp_ns = r.timestamp_ns;
    } in
    let opens = (r.type == code add) || (r.type == code new) in
    elim (search r.order_id orders) [
      | none ↦
          if opens && not (length orders == capacity) then some (orders ++ (fresh ∷ [])) else none
      | some (index, o) ↦ if opens then none else apply_known r orders index o
    ]

-- What a record must be at its place.
unfoldable pub valid_record : ℕ → RecoveryRecord → Bool
valid_record expected r =
    (r.magic == record_magic)
    && (r.version == record_version)
    && (r.sequence == expected)
    && (checksum r == r.stored_checksum)

-- The loop of `replay`.
unfoldable pub replay_from :
    ℕ → ℕ → List RecoveredOrder → List RecoveryRecord → Option (List RecoveredOrder)
unfolding valid_record
replay_from capacity expected orders [] = some orders
replay_from capacity expected orders (r ∷ rs) = elim (valid_record expected r) [
  | false ↦ none
  | true ↦ elim (apply r capacity orders) [
    | none ↦ none
    | some orders' ↦ replay_from capacity (expected + 1) orders' rs
  ]
]

unfoldable pub replay : RecoveryLedger → ℕ → Option (List RecoveredOrder)
unfolding replay_from
replay l capacity =
    if not l.is_open || (capacity == 0) then none else replay_from capacity 0 [] l.file

-- The loop of `verify_wal_integrity`: the number of valid records, and whether all are.
unfoldable pub verify_records : ℕ → List RecoveryRecord → ℕ × Bool
unfolding valid_record
verify_records expected [] = (expected, true)
verify_records expected (r ∷ rs) =
    if valid_record expected r then verify_records (expected + 1) rs else (expected, false)
