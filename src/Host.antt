-- ===== src/Host.antt =====
-- What the daemon asks of the system around it. The answers of GLib, the resolver functions, the
-- clock, the kernel's sets, the child processes and the database are the fields of `Host`: each is a
-- function of the whole history of requests, newest first, so an answer may depend on all that
-- happened before and differ from call to call.
use rahunas.Prelude.{ℕ, Bool, List, Option}
use rahunas.Text.{Bytes}

-- `IP_SET_OP_ADD_IP`, `IP_SET_OP_DEL_IP` and `IP_SET_OP_TEST_IP`.
pub data SetOp : Type 0 where
  add_ip del_ip test_ip : SetOp

pub data Event : Type 0 where
  -- `time`, and `random` seeded by the clock
  clock : Event
  draw : Event
  -- `setsockopt` on a set of addresses with MACs, and on one of pairs of addresses
  adt : SetOp → ℕ → ℕ → Bytes → Event
  adt_pair : SetOp → ℕ → ℕ → ℕ → Event
  -- the wrapper of the bandwidth tool, with its arguments
  bandwidth : List Bytes → Event
  -- a statement that changes the database, and one that reads it
  sql : Bytes → Event
  sql_select : Bytes → Event
  -- `gnet_xmlrpc_client_new`
  connect : Event
  -- `gnet_xmlrpc_client_call`, with the name of the command and its parameters
  call : Bytes → Bytes → Event
  sleep : ℕ → Event
  -- `IP_SET_OP_ADT_GET`, `IP_SET_OP_FLUSH` and `IP_SET_OP_MAX_SETS` of the set with a name, and
  -- `IP_SET_OP_LIST_SIZE` and `IP_SET_OP_LIST` of the set with an index
  adt_get : Bytes → Event
  flush : Bytes → Event
  max_sets : Bytes → Event
  list_size : ℕ → Event
  list_set : ℕ → Event
  -- the wrapper of the firewall tool, with its arguments and its environment
  firewall : List Bytes → List Bytes → Event

-- What `setsockopt` says: zero, or an error with `EEXIST` or another number.
pub data SockReply : Type 0 where
  sent exists failed : SockReply

-- How a child process went: no pipe, no fork, an exit status with what it printed, or a signal.
pub data ChildReply : Type 0 where
  no_pipe no_fork : ChildReply
  exited : ℕ → Bytes → ChildReply
  killed : Bytes → ChildReply

pub record Host : Type 0 where
  pub trim : Bytes → Bytes
  pub inet_aton : Bytes → Option ℕ
  pub inet_ntoa : ℕ → Bytes
  -- `strftime` with `%s` of a local time
  pub epoch : ℕ → Bytes
  pub time : List Event → ℕ
  pub random : List Event → ℕ
  pub setsockopt : List Event → SockReply
  pub child : List Event → ChildReply
  pub has_rows : List Event → Bool
  -- whether the accounting service is reached
  pub connected : List Event → Bool
  -- whether the call of the accounting service returned 0
  pub called : List Event → Bool
