-- ===== src/Raft/Replication.antt =====
-- The hot-standby replica: log matching between leader and follower, and stale leaders.
use luv_flicker.Base.{ℕ, ◌+◌, ◌%◌, ◌^◌, ◌≤◌, ◌<◌, ◌≡◌, ◌⊎◌, ℤ, true, false, some, arith}
use luv_flicker.Raft.{
  heartbeat, HotStandbyReplica, RaftLogEntry, SyncEventType, leader, leader_append, follower_apply,
  check_failover, is_heartbeat,
}

-- The follower has what the leader has.
pub record IsReplica (lead follow : HotStandbyReplica) : Type 0 where
  pub same_index : follow.commit_index ≡ lead.commit_index
  pub same_log : (i : ℕ) → follow.log i ≡ lead.log i
  pub not_ahead : follow.current_term ≤ lead.current_term

-- When a leader appends an event that is no heartbeat and its replica applies the entry, the replica
-- accepts it and again has the leader's log and commit index, in the leader's term.
pub append-apply :
    (lead follow : HotStandbyReplica) (type : SyncEventType) (symbol_idx side order_id : ℕ)
    (price qty : ℤ) (ts_ns now_ns : ℕ) (entry : RaftLogEntry)
    → IsReplica lead follow
    → is_heartbeat type ≡ false
    → (leader_append lead type symbol_idx side order_id price qty ts_ns).1 ≡ some entry
    → let lead' = (leader_append lead type symbol_idx side order_id price qty ts_ns).0 in
      let (follow', ok) = follower_apply follow entry now_ns in
      (ok ≡ true) × IsReplica lead' follow' × (follow'.current_term ≡ lead'.current_term)
unfolding leader_append follower_apply
append-apply lead follow type s d o p q t n entry v h e = (
  ground arith,
  record {
    same_index = ground arith;
    same_log = λ i. ground (arith, v.same_log i);
    not_ahead = ground arith;
  },
  ground arith,
)

-- A heartbeat that a leader appends takes a log index, but its replica accepts it without taking it in: the replica is
-- an entry behind, and refuses the next event that the leader appends, as any later one.
pub append_heartbeat-diverges :
    (lead follow : HotStandbyReplica) (type : SyncEventType) (symbol_idx side order_id : ℕ)
    (price qty : ℤ) (ts_ns now_ns : ℕ) (beat entry : RaftLogEntry)
    → IsReplica lead follow
    → lead.commit_index < 2 ^ 64
    → is_heartbeat type ≡ false
    → (leader_append lead heartbeat symbol_idx side order_id price qty ts_ns).1 ≡ some beat
    → let lead' = (leader_append lead heartbeat symbol_idx side order_id price qty ts_ns).0 in
      let (follow', ok) = follower_apply follow beat now_ns in
      (ok ≡ true)
      × (follow'.commit_index ≡ lead.commit_index)
      × ((leader_append lead' type symbol_idx side order_id price qty ts_ns).1 ≡ some entry
          → (follower_apply follow' entry now_ns).1 ≡ false)
unfolding leader_append follower_apply
append_heartbeat-diverges lead follow type s d o p q t n beat entry v small h e =
    (ground arith, ground arith, λ next. ground arith)

-- Whatever is received, a replica's term never falls, and its commit index stays or goes to the
-- next one. An entry that it takes is of no older term, and what it refuses leaves its log and its
-- commit index.
pub follower_apply_monotone :
    (r : HotStandbyReplica) (entry : RaftLogEntry) (now_ns : ℕ)
    → let (r', ok) = follower_apply r entry now_ns in
      (r.current_term ≤ r'.current_term)
      × (((ok ≡ true)
            × (r.current_term ≤ entry.term)
            × ((r'.commit_index ≡ r.commit_index)
                ⊎ (r'.commit_index ≡ (r.commit_index + 1) % 2 ^ 64)))
          ⊎ ((ok ≡ false) × (r'.commit_index ≡ r.commit_index) × (r'.log ≡ r.log)))
unfolding follower_apply
follower_apply_monotone r entry now_ns = ground arith

-- After a failover the new leader refuses every entry of its old term or an earlier one, if the
-- term counter has not wrapped.
pub failover_fences :
    (r : HotStandbyReplica) (entry : RaftLogEntry) (now_ns later_ns : ℕ)
    → r.current_term + 1 < 2 ^ 64
    → entry.term ≤ r.current_term
    → (check_failover r now_ns).1 ≡ true
    → let r' = (check_failover r now_ns).0 in
      (r'.role ≡ leader) × (follower_apply r' entry later_ns ≡ (r', false))
unfolding check_failover follower_apply
failover_fences r entry now_ns later_ns small old done = ground arith
