-- ===== src/Snowflake/Workers.antt =====
-- The node number of a worker.
use shortlink_system.Base.{ℕ, ◌≡◌, List, arith, Option, some, Text}
use shortlink_system.Snowflake.{Node, natural, new_node, Address, fetch_worker_id_by_ip}
use shortlink_system.Snowflake.Order.{IsValid}

-- The number is in range, whatever the checksum, so that `NewNode` accepts it: the new node has that
-- number and is valid.
pub new_node-fetch :
    (checksum : Text → ℕ) (pod_ip : Text) (addrs : Option (List Address))
    → let id = fetch_worker_id_by_ip checksum pod_ip addrs in
      let n : Node = record { timestamp = 0; node_id = id; step = 0 } in
      (new_node (natural id) ≡ some n) × IsValid n
unfolding new_node fetch_worker_id_by_ip
new_node-fetch checksum pod_ip addrs = ground arith
