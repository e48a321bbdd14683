-- ===== src/Server.antt =====
-- src/net/TcpServer.h and src/net/TcpServer.cpp. A connection is its address, its name and its loop;
-- what it does itself is in Connection. The functors that the server gives to loops are a log, each
-- with its loop: the one of the server's own loop runs `removeConnectionInLoop` at once or from its
-- queue. `m_nextConnId` is an `int`, which the theorems keep in range. The callbacks are passed on to
-- the connections as they are.
pub mod Names
pub mod Lifecycle
pub mod Runs
pub mod Balance
use protobase.Common.{
  ℕ, ◌+◌, Bool, Option, some, List, [], ◌∷◌, ◌++◌, map, if◌then◌else◌, ◌>>=◌, take,
}
use protobase.Common.Int.{ℤ, pos}
use protobase.Common.Decimal.{decimal}
use protobase.Common.Texts.{put, erase}
use protobase.Pool.{Pool, get_next_loop}

pub record Conn : Type 0 where
  pub id : ℕ
  pub fd : ℕ
  pub name : List ℕ
  pub loop : ℕ

pub data Task : Type 0 where
  listen : Task
  establish : Conn → Task
  destroy : Conn → Task
  remove_later : Conn → Task

pub record TcpServer : Type 0 where
  pub base : ℕ
  pub ip_port : List ℕ
  pub name : List ℕ
  pub pool : Pool
  pub next_conn_id : ℕ
  pub connections : List (List ℕ × Conn)
  pub tasks : List (ℕ × Task)

unfoldable pub create : ℕ → List ℕ → List ℕ → TcpServer
unfolding protobase.Pool.create
create base ip_port name = record {
  base = base;
  ip_port = ip_port;
  name = name;
  pool = protobase.Pool.create base (pos 0);
  next_conn_id = 1;
  connections = [];
  tasks = [];
}

unfoldable pub set_thread_num : ℤ → TcpServer → TcpServer
unfolding protobase.Pool.set_thread_num
set_thread_num n s = record s { pool = protobase.Pool.set_thread_num n s.pool }

unfoldable pub start : Bool → (ℕ → ℕ) → TcpServer → TcpServer
unfolding protobase.Pool.start
start has_callback fresh s = record s {
  pool = protobase.Pool.start has_callback fresh s.pool;
  tasks = s.tasks ++ (s.base, listen) ∷ [];
}

-- What `snprintf(nameBuf, 64, "-%s#%d", …)` is to print.
abbrev pub name_end : List ℕ → ℕ → List ℕ
name_end ip_port id = b'-' ∷ (ip_port ++ b'#' ∷ decimal id)

-- What it prints, behind the server's name.
unfoldable pub conn_name : TcpServer → ℕ → List ℕ
unfolding decimal
conn_name s id = s.name ++ take 63 (name_end s.ip_port id)

-- The new `Connection`, with its address, and the server once it has it.
unfoldable pub conn_of : ℕ → ℕ → ℕ → TcpServer → Conn
unfolding conn_name
conn_of fd id loop s = record { id = id; fd = fd; name = conn_name s s.next_conn_id; loop = loop }

unfoldable pub with_conn : Conn → Pool → TcpServer → TcpServer
with_conn c pool s = record s {
  pool = pool;
  next_conn_id = s.next_conn_id + 1;
  connections = put c.name c s.connections;
  tasks = s.tasks ++ (c.loop, establish c) ∷ [];
}

-- `none` is a loop index out of range.
unfoldable pub new_connection : ℕ → ℕ → TcpServer → Option TcpServer
unfolding get_next_loop conn_of with_conn
new_connection fd id s = get_next_loop s.pool >>= λ r. some (with_conn (conn_of fd id r.0 s) r.1 s)

unfoldable pub remove_connection_in_loop : Conn → TcpServer → TcpServer
remove_connection_in_loop c s = record s {
  connections = erase c.name s.connections;
  tasks = s.tasks ++ (c.loop, destroy c) ∷ [];
}

-- `in_base` is whether the caller is the thread of the server's loop.
unfoldable pub remove_connection : Bool → Conn → TcpServer → TcpServer
unfolding remove_connection_in_loop
remove_connection in_base c s =
    if in_base
    then remove_connection_in_loop c s
    else record s { tasks = s.tasks ++ (s.base, remove_later c) ∷ [] }

abbrev pub destroy_items : List (List ℕ × Conn) → List (ℕ × Task)
destroy_items [] = []
destroy_items ((name, c) ∷ cs) = (c.loop, destroy c) ∷ destroy_items cs

-- `~TcpServer()`; the references of the table go with it.
unfoldable pub dispose : TcpServer → TcpServer
dispose s = record s { connections = []; tasks = s.tasks ++ destroy_items s.connections }
