-- ===== src/Safety/Audit.antt =====
-- luv_safety.hpp, `DurableAuditLog` and its manifest: the hash chain over the events of the log.
-- SHA-256 is OpenSSL's: the digest of a previous hash and the fields of an event is a parameter, and
-- so is what `memcmp` of two hashes answers. The log file is the events in front of its first write that
-- failed, and the number of bytes behind them. What the system answers to the writes of an event and to the sync is
-- an argument.
pub mod Chain
use luv_flicker.Base.{
  ℕ, ◌+◌, ◌-◌, ◌%◌, ◌^◌, ℤ, pos, leb_ℤ, Bool, true, false, not, ◌&&◌, ◌||◌, Option, none, some,
  List, [], ◌∷◌, ◌++◌, if◌then◌else◌, ◌==◌, ltb, leb,
}

-- The fields of an event that its hash covers, without the previous hash.
pub record Content : Type 0 where
  pub sequence : ℕ
  pub timestamp_ns : ℕ
  pub order_id : ℕ
  pub price : ℤ
  pub quantity : ℤ
  pub trader_id : ℕ
  pub side : ℕ
  pub type : ℕ

pub record AuditEvent (Hash : Type 0) : Type 0 where
  pub content : Content
  pub previous_hash : Hash
  pub hash : Hash

pub record DurableAuditLog (Hash : Type 0) : Type 0 where
  pub is_open : Bool
  pub sync_interval : ℕ
  pub pending : ℕ
  pub sequence : ℕ
  pub tail : Hash
  pub file : List (AuditEvent Hash)
  pub torn : ℕ

-- The size of an event in the file.
abbrev pub event_size : ℕ
event_size = 112

-- How `write_all` ends: the whole event is written, or the writes fail behind some of its bytes.
pub data Written : Type 0 where
  whole : Written
  failed : (bytes : ℕ) → Written

pub record AuditManifestCheckpoint (Hash : Type 0) : Type 0 where
  pub start_sequence : ℕ
  pub end_sequence : ℕ
  pub start_hash : Hash
  pub end_hash : Hash

module _ (Hash : Type 0) (sha256 : Hash → Content → Hash) (same : Hash → Hash → Bool) where
  unfoldable pub valid_event : AuditEvent Hash → Bool
  valid_event e = same (sha256 e.previous_hash e.content) e.hash

  -- The loop of `validate_existing_records`: the sequence number and the tail behind the last event.
  unfoldable pub validate_records : ℕ → Hash → List (AuditEvent Hash) → Option (ℕ × Hash)
  unfolding valid_event
  validate_records sequence previous [] = some (sequence, previous)
  validate_records sequence previous (e ∷ es) =
      if not (e.content.sequence == sequence)
        || not (same e.previous_hash previous)
        || not (valid_event e)
      then none
      else validate_records (sequence + 1) e.hash es

  -- What the loop has counted where it ends.
  unfoldable pub valid_prefix : ℕ → Hash → List (AuditEvent Hash) → ℕ
  unfolding valid_event
  valid_prefix sequence previous [] = sequence
  valid_prefix sequence previous (e ∷ es) =
      if not (e.content.sequence == sequence)
        || not (same e.previous_hash previous)
        || not (valid_event e)
      then sequence
      else valid_prefix (sequence + 1) e.hash es

  -- `open` on a file that the system opens: the events that its whole records read as, and the `rest` bytes
  -- of its size behind them.
  unfoldable pub open_log :
      Hash
      → DurableAuditLog Hash
      → ℕ
      → List (AuditEvent Hash)
      → (rest : ℕ) → DurableAuditLog Hash × Bool
  open_log zero_hash l sync_interval file rest =
      let closed = record l {
        is_open = false;
        sync_interval = sync_interval;
        pending = 0;
        tail = zero_hash;
        file = file;
        torn = rest;
      } in
      if l.is_open || sync_interval == 0
      then (l, false)
      else if not (rest == 0)
      then (closed, false)
      else elim (validate_records 0 zero_hash file) [
        | none ↦ (record closed { sequence = valid_prefix 0 zero_hash file }, false)
        | some (sequence, tail) ↦
            (record closed { is_open = true; sequence = sequence; tail = tail }, true)
      ]

  unfoldable pub flush : DurableAuditLog Hash → Bool → DurableAuditLog Hash × Bool
  flush l synced =
      if not l.is_open || not synced then (l, false) else (record l { pending = 0 }, true)

  -- The event that `append` writes.
  unfoldable pub next_event : DurableAuditLog Hash → Content → AuditEvent Hash
  next_event l content = record {
    content = record content { sequence = l.sequence };
    previous_hash = l.tail;
    hash = sha256 l.tail (record content { sequence = l.sequence });
  }

  -- The file behind `write_all`, from the end of the file on.
  unfoldable pub write_all :
      DurableAuditLog Hash → AuditEvent Hash → Written → DurableAuditLog Hash × Bool
  write_all l e Written.whole = (
    if l.torn == 0
        then record l { file = l.file ++ (e ∷ []) }
        else record l { torn = l.torn + event_size },
    true,
  )
  write_all l e (Written.failed bytes) = (record l { torn = l.torn + bytes }, false)

  -- `write_all` ends as `written` says; the sync that may follow answers `synced`.
  unfoldable pub append :
      DurableAuditLog Hash → Content → Written → Bool → DurableAuditLog Hash × Bool
  unfolding next_event flush write_all
  append l content written synced =
      let e = next_event l content in
      let (w, ok) = write_all l e written in
      let appended = record w {
        tail = e.hash;
        sequence = (l.sequence + 1) % 2 ^ 64;
        pending = (l.pending + 1) % 2 ^ 32;
      } in
      if not l.is_open
        || content.order_id == 0
        || leb_ℤ content.quantity (pos 0)
        || ltb 1 content.side
      then (l, false)
      else if not ok
      then (w, false)
      else if ltb appended.pending l.sync_interval
      then (appended, true)
      else flush appended synced

  -- `verify_log_integrity`: the number of events and the root hash of a valid file, with no bytes behind its
  -- whole records.
  unfoldable pub verify_log_integrity :
      Hash → List (AuditEvent Hash) → (rest : ℕ) → Option (ℕ × Hash)
  unfolding validate_records
  verify_log_integrity zero_hash file rest =
      if not (rest == 0) then none else validate_records 0 zero_hash file

  -- The loop of `verify_manifest` over the events from the start to the end of the checkpoint: each
  -- stands behind the one before, from the start hash to the end hash.
  unfoldable pub verify_range : Hash → Hash → List (AuditEvent Hash) → Bool
  unfolding valid_event
  verify_range previous end_hash [] = same previous end_hash
  verify_range previous end_hash (e ∷ es) =
      if not (same e.previous_hash previous) || not (valid_event e)
      then false
      else verify_range e.hash end_hash es
