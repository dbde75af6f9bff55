-- ===== src/Node/Frame.antt =====
-- `Frame` of crates/shardvault-node/src/protocol.rs.
use shard_vault.Base.{ℕ, Option, List, Text}
use shard_vault.Wal.Record.{Record}

pub data Frame : Type 0 where
  hello : ℕ → ℕ → Frame
  put_req : ℕ → Text → List ℕ → Frame
  put_ok : ℕ → Frame
  put_err : ℕ → Text → Frame
  get_req : ℕ → Text → Frame
  get_ok : ℕ → Option (List ℕ) → Frame
  append : ℕ → Record → Option (List ℕ) → Frame
  sync_barrier : ℕ → Frame
  sync_ack : ℕ → Frame
  need_from : ℕ → Frame
  status_req : Frame
  status_ok : ℕ → List (ℕ × ℕ) → Frame
  probe_fsync : Frame
  probe_fsync_resp : ℕ → Frame
  compact : Frame
  compact_done : ℕ → Frame
  list_req : ℕ → Text → Frame
  list_ok : ℕ → List (Text × ℕ) → Frame
  capacity_req : ℕ → Text → Frame
  capacity_ok : ℕ → ℕ × ℕ → ℕ × ℕ → Frame
  simulate_failure : ℕ → Frame
  simulate_failure_done : Frame
