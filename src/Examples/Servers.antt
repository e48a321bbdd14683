-- ===== src/Examples/Servers.antt =====
-- src/net/TcpServer.cpp with three loops and two connections.
use protobase.Common.{ℕ, ◌+◌, ◌≡◌, refl, true, false, some, [], ◌∷◌, ◌++◌, arith, drop, take}
use protobase.Common.Int.{pos}
use protobase.Common.Texts.{codes}
use protobase.Pool.{Pool, next_loops}
use protobase.Server.{
  TcpServer, Conn, create, set_thread_num, start, conn_name, conn_of, with_conn, new_connection,
  dispose, remove_connection,
}
use protobase.Server.Lifecycle.{established, destroyed, live}
use protobase.Server.Runs.{Runs, done, arrives, closes, Runs-balanced}
use protobase.Server.Balance.{accept_all, loops_of, accept_all-round}

abbrev server : TcpServer
server =
    start false (λ i. 100 + i)
      (set_thread_num (pos 3) (create 1 (codes "0.0.0.0:9999") (codes "test")))

first_name : conn_name server 1 ≡ codes "test-0.0.0.0:9999#1"
unfolding conn_name start set_thread_num create
first_name = refl

accept_all-round_example :
    (s' : TcpServer) × (accept_all ((5, 11) ∷ (6, 12) ∷ (7, 13) ∷ []) server ≡ some s')
    × ((loops_of s'.tasks
          ≡ loops_of server.tasks
            ++ (drop server.pool.next server.pool.loops ++ take server.pool.next server.pool.loops))
        × (s'.pool ≡ server.pool))
unfolding start set_thread_num create protobase.Pool.start protobase.Pool.create
accept_all-round_example =
    accept_all-round ((5, 11) ∷ (6, 12) ∷ (7, 13) ∷ []) server refl (omega arith)

abbrev first : Conn
first = conn_of 5 11 100 server

abbrev one : TcpServer
one = with_conn first (record server.pool { next = 1 }) server

-- A connection arrives and is closed.
run : Runs server (remove_connection true first one)
unfolding start set_thread_num create protobase.Pool.start protobase.Pool.create new_connection
    conn_of with_conn conn_name
run = arrives 5 11 server one (remove_connection true first one) (omega arith) refl (
    closes first one (remove_connection true first one) refl
      (done (remove_connection true first one)))

Runs-balanced_example :
    ((l i : ℕ)
      → established l i (remove_connection true first one).tasks
        ≡ destroyed l i (remove_connection true first one).tasks
          + live l i (remove_connection true first one).connections)
    × ((l i : ℕ)
        → established l i (dispose (remove_connection true first one)).tasks
          ≡ destroyed l i (dispose (remove_connection true first one)).tasks)
Runs-balanced_example =
    Runs-balanced 1 (codes "0.0.0.0:9999") (codes "test") (pos 3) false (λ i. 100 + i) (omega arith)
      run
