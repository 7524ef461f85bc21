-- ===== src/Raft/Tests.antt =====
-- Concrete replicas, and the theorems of luv_raft_sync.hpp at them.
use luv_flicker.Base.{◌≡◌, pos, true, refl, arith}
use luv_flicker.Raft.{
  HotStandbyReplica, RaftLogEntry, heartbeat, order_inserted, leader, follower, leader_append,
  follower_apply,
}
use luv_flicker.Raft.Replication.{IsReplica, append-apply}

abbrev nothing : RaftLogEntry
nothing = record {
  term = 0;
  log_index = 0;
  event_type = heartbeat;
  symbol_idx = 0;
  side = 0;
  order_id = 0;
  price = pos 0;
  qty = pos 0;
  event_timestamp_ns = 0;
}

abbrev chief : HotStandbyReplica
chief = record {
  role = leader;
  current_term = 4;
  commit_index = 10;
  last_heartbeat_ts_ns = 0;
  applied_count = 0;
  log = λ i. nothing;
}

abbrev standby : HotStandbyReplica
standby = record chief { role = follower; current_term = 3 }

abbrev inserted : RaftLogEntry
inserted = record {
  term = 4;
  log_index = 11;
  event_type = order_inserted;
  symbol_idx = 3;
  side = 0;
  order_id = 7;
  price = pos 1000;
  qty = pos 50;
  event_timestamp_ns = 100;
}

standby-IsReplica : IsReplica chief standby
standby-IsReplica = record { same_index = refl; same_log = λ i. refl; not_ahead = omega arith }

append-apply_example :
    let lead' = (leader_append chief order_inserted 3 0 7 (pos 1000) (pos 50) 100).0 in
    let (follow', ok) = follower_apply standby inserted 120 in
    (ok ≡ true) × IsReplica lead' follow' × (follow'.current_term ≡ lead'.current_term)
unfolding leader_append
append-apply_example =
    append-apply chief standby order_inserted 3 0 7 (pos 1000) (pos 50) 100 120 inserted
      standby-IsReplica refl refl

-- Silence for more than the time-out, then an entry of the old leader.
abbrev old_entry : RaftLogEntry
old_entry = record inserted { term = 3 }
