-- ===== src/Raft.antt =====
-- luv_raft_sync.hpp: the hot-standby replica. Terms, indices and times are uint64_t; the log is a
-- function from its 4096 slots. `leader_append` returns the entry where it returns true.
mod Tests
pub mod Replication
use luv_flicker.Base.{
  ℕ, ◌+◌, ◌%◌, ◌^◌, ℤ, Bool, true, false, not, Option, none, some, if◌then◌else◌, ◌==◌, ltb, update,
}

pub data NodeRole : Type 0 where
  follower candidate leader : NodeRole

pub data SyncEventType : Type 0 where
  heartbeat order_inserted order_canceled trade_executed : SyncEventType

pub record RaftLogEntry : Type 0 where
  pub term : ℕ
  pub log_index : ℕ
  pub event_type : SyncEventType
  pub symbol_idx : ℕ
  pub side : ℕ
  pub order_id : ℕ
  pub price : ℤ
  pub qty : ℤ
  pub event_timestamp_ns : ℕ

pub record HotStandbyReplica : Type 0 where
  pub role : NodeRole
  pub current_term : ℕ
  pub commit_index : ℕ
  pub last_heartbeat_ts_ns : ℕ
  pub applied_count : ℕ
  pub log : ℕ → RaftLogEntry

abbrev pub max_log_capacity : ℕ
max_log_capacity = 4096

abbrev pub heartbeat_timeout_ns : ℕ
heartbeat_timeout_ns = 20_000_000

abbrev pub is_leader : NodeRole → Bool
is_leader leader = true
is_leader _ = false

abbrev pub is_heartbeat : SyncEventType → Bool
is_heartbeat heartbeat = true
is_heartbeat _ = false

-- The event of a call: everything of an entry but its term and index.
unfoldable pub leader_append :
    HotStandbyReplica
    → SyncEventType
    → ℕ
    → ℕ
    → ℕ
    → ℤ
    → ℤ
    → ℕ
    → HotStandbyReplica × Option RaftLogEntry
leader_append r type symbol_idx side order_id price qty ts_ns =
    let next_idx = (r.commit_index + 1) % 2 ^ 64 in
    let entry : RaftLogEntry = record {
      term = r.current_term;
      log_index = next_idx;
      event_type = type;
      symbol_idx = symbol_idx;
      side = side;
      order_id = order_id;
      price = price;
      qty = qty;
      event_timestamp_ns = ts_ns;
    } in
    if not (is_leader r.role) then (r, none) else (
      record r {
        log = update r.log (next_idx % max_log_capacity) entry;
        commit_index = next_idx;
        last_heartbeat_ts_ns = ts_ns;
      },
      some entry,
    )

-- A later term turns the replica into its follower.
unfoldable pub adopt_term : HotStandbyReplica → ℕ → HotStandbyReplica
adopt_term r term =
    if ltb r.current_term term then record r { current_term = term; role = follower } else r

unfoldable pub follower_apply : HotStandbyReplica → RaftLogEntry → ℕ → HotStandbyReplica × Bool
unfolding adopt_term
follower_apply r entry now_ns =
    let q = record (adopt_term r entry.term) { last_heartbeat_ts_ns = now_ns } in
    if ltb entry.term r.current_term
    then (r, false)
    else if is_heartbeat entry.event_type
    then (q, true)
    else if entry.log_index == (q.commit_index + 1) % 2 ^ 64
    then (
      record q {
        log = update q.log (entry.log_index % max_log_capacity) entry;
        commit_index = entry.log_index;
        applied_count = (q.applied_count + 1) % 2 ^ 64;
      },
      true,
    )
    else (q, false)

unfoldable pub check_failover : HotStandbyReplica → ℕ → HotStandbyReplica × Bool
check_failover r now_ns =
    if is_leader r.role
    then (r, false)
    else if ltb ((r.last_heartbeat_ts_ns + heartbeat_timeout_ns) % 2 ^ 64) now_ns
    then (record r { role = leader; current_term = (r.current_term + 1) % 2 ^ 64 }, true)
    else (r, false)
