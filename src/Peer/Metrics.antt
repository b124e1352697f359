-- ===== src/Peer/Metrics.antt =====
-- bee-protocol/src/protocol/metrics.rs. The counters are `AtomicU64`, which wrap; what `fetch_add`
-- returns is used by no caller.
use bee_p.Common.{ℕ, ◌+◌, ◌%◌, ◌^◌}

pub record ProtocolMetrics : Type 0 where
  pub invalid_transactions_received : ℕ
  pub stale_transactions_received : ℕ
  pub random_transactions_received : ℕ
  pub new_transactions_received : ℕ
  pub known_transactions_received : ℕ
  pub invalid_messages_received : ℕ
  pub milestone_request_received : ℕ
  pub transaction_broadcast_received : ℕ
  pub transaction_request_received : ℕ
  pub heartbeat_received : ℕ
  pub milestone_request_sent : ℕ
  pub transaction_broadcast_sent : ℕ
  pub transaction_request_sent : ℕ
  pub heartbeat_sent : ℕ

-- `fetch_add(1)`
abbrev pub fetch_add : ℕ → ℕ
fetch_add n = (n + 1) % 2 ^ 64

abbrev pub default : ProtocolMetrics
default = record {
  invalid_transactions_received = 0;
  stale_transactions_received = 0;
  random_transactions_received = 0;
  new_transactions_received = 0;
  known_transactions_received = 0;
  invalid_messages_received = 0;
  milestone_request_received = 0;
  transaction_broadcast_received = 0;
  transaction_request_received = 0;
  heartbeat_received = 0;
  milestone_request_sent = 0;
  transaction_broadcast_sent = 0;
  transaction_request_sent = 0;
  heartbeat_sent = 0;
}

abbrev pub invalid_transactions_received_inc : ProtocolMetrics → ProtocolMetrics
invalid_transactions_received_inc m = record m {
  invalid_transactions_received = fetch_add m.invalid_transactions_received;
}

abbrev pub stale_transactions_received_inc : ProtocolMetrics → ProtocolMetrics
stale_transactions_received_inc m = record m {
  stale_transactions_received = fetch_add m.stale_transactions_received;
}

abbrev pub random_transactions_received_inc : ProtocolMetrics → ProtocolMetrics
random_transactions_received_inc m = record m {
  random_transactions_received = fetch_add m.random_transactions_received;
}

abbrev pub new_transactions_received_inc : ProtocolMetrics → ProtocolMetrics
new_transactions_received_inc m = record m {
  new_transactions_received = fetch_add m.new_transactions_received;
}

abbrev pub known_transactions_received_inc : ProtocolMetrics → ProtocolMetrics
known_transactions_received_inc m = record m {
  known_transactions_received = fetch_add m.known_transactions_received;
}

abbrev pub invalid_messages_received_inc : ProtocolMetrics → ProtocolMetrics
invalid_messages_received_inc m = record m {
  invalid_messages_received = fetch_add m.invalid_messages_received;
}

abbrev pub milestone_request_received_inc : ProtocolMetrics → ProtocolMetrics
milestone_request_received_inc m = record m {
  milestone_request_received = fetch_add m.milestone_request_received;
}

abbrev pub transaction_broadcast_received_inc : ProtocolMetrics → ProtocolMetrics
transaction_broadcast_received_inc m = record m {
  transaction_broadcast_received = fetch_add m.transaction_broadcast_received;
}

abbrev pub transaction_request_received_inc : ProtocolMetrics → ProtocolMetrics
transaction_request_received_inc m = record m {
  transaction_request_received = fetch_add m.transaction_request_received;
}

abbrev pub heartbeat_received_inc : ProtocolMetrics → ProtocolMetrics
heartbeat_received_inc m = record m { heartbeat_received = fetch_add m.heartbeat_received }

abbrev pub milestone_request_sent_inc : ProtocolMetrics → ProtocolMetrics
milestone_request_sent_inc m = record m {
  milestone_request_sent = fetch_add m.milestone_request_sent;
}

abbrev pub transaction_broadcast_sent_inc : ProtocolMetrics → ProtocolMetrics
transaction_broadcast_sent_inc m = record m {
  transaction_broadcast_sent = fetch_add m.transaction_broadcast_sent;
}

abbrev pub transaction_request_sent_inc : ProtocolMetrics → ProtocolMetrics
transaction_request_sent_inc m = record m {
  transaction_request_sent = fetch_add m.transaction_request_sent;
}

abbrev pub heartbeat_sent_inc : ProtocolMetrics → ProtocolMetrics
heartbeat_sent_inc m = record m { heartbeat_sent = fetch_add m.heartbeat_sent }
