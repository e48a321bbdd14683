-- ===== src/Server/Runs.antt =====
-- src/net/TcpServer.cpp: a server from its start to its end.
use protobase.Common.{
  ℕ, some_inj, ◌+◌, ◌≤◌, ◌<◌, ◌^◌, ◌≡◌, ◌∙◌, refl, sym, ap, subst, Bool, true, false, Option, none,
  some, List, [], ◌∷◌, ◌++◌, arith, length,
}
use protobase.Common.Int.{ℤ}
use protobase.Common.Texts.{find}
use protobase.Pool.Rounds.{start-InRange}
use protobase.Server.{
  TcpServer, Conn, Task, create, set_thread_num, start, new_connection, remove_connection,
  remove_connection_in_loop, destroy_items, dispose,
}
use protobase.Server.Lifecycle.{
  established, destroyed, live, established-append, destroyed-append, Sound, new_connection-Sound,
  remove-Sound,
}

-- What happens to a server once it has started: connections arrive, fewer than 2^31 of them;
-- a connection that is in the table calls its close callback in the thread of the server's loop;
-- one calls it in another thread; and the server's loop runs the removal of one that is in the table.
pub data Runs : TcpServer → TcpServer → Type 0 where
  done : (s : TcpServer) → Runs s s
  arrives :
      (fd id : ℕ) (s s' s'' : TcpServer)
      → s.next_conn_id + 1 < 2 ^ 31
      → new_connection fd id s ≡ some s'
      → Runs s' s''
      → Runs s s''
  closes :
      (c : Conn) (s s' : TcpServer)
      → find c.name s.connections ≡ some c
      → Runs (remove_connection true c s) s'
      → Runs s s'
  closes_elsewhere :
      (c : Conn) (s s' : TcpServer) → Runs (remove_connection false c s) s' → Runs s s'
  removal_runs :
      (c : Conn) (s s' : TcpServer)
      → find c.name s.connections ≡ some c
      → Runs (remove_connection_in_loop c s) s'
      → Runs s s'

-- A removal that is put off changes nothing yet.
remove_later-Sound : (c : Conn) (s : TcpServer) → Sound s → Sound (remove_connection false c s)
unfolding remove_connection protobase.Server.conn_name
remove_later-Sound c s v = record {
  unique = v.unique;
  fresh = v.fresh;
  short = v.short;
  in_range = v.in_range;
  balanced = λ l i. omega (
    arith,
    v.balanced l i,
    established-append l i s.tasks ((s.base, protobase.Server.remove_later c) ∷ []),
    destroyed-append l i s.tasks ((s.base, protobase.Server.remove_later c) ∷ []),
  );
}

pub Runs-Sound : {s s' : TcpServer} → Runs s s' → Sound s → Sound s'
unfolding remove_connection
Runs-Sound (done s) v = v
Runs-Sound (arrives fd id s s₁ s₂ small e rest) v =
    let (s', e', w) = new_connection-Sound fd id s v small in
    Runs-Sound rest (subst Sound (some_inj (sym e' ∙ e)) w.0)
Runs-Sound (closes c s s₁ h rest) v = Runs-Sound rest (remove-Sound c s v h)
Runs-Sound (closes_elsewhere c s s₁ rest) v = Runs-Sound rest (remove_later-Sound c s v)
Runs-Sound (removal_runs c s s₁ h rest) v = Runs-Sound rest (remove-Sound c s v h)

pub start-Sound :
    (base : ℕ) (ip_port name : List ℕ) (threads : ℤ) (has_callback : Bool) (fresh : ℕ → ℕ)
    → length ip_port ≤ 51
    → Sound (start has_callback fresh (set_thread_num threads (create base ip_port name)))
unfolding start set_thread_num create protobase.Pool.create
start-Sound base ip_port name threads has_callback fresh short = record {
  unique = tt;
  fresh = λ k low high. refl;
  short = short;
  in_range =
      start-InRange has_callback fresh threads
        (protobase.Pool.create base (protobase.Common.Int.pos 0)) refl refl;
  balanced = λ l i. refl;
}

destroy_items-established :
    (l i : ℕ) (m : List (List ℕ × Conn)) → established l i (destroy_items m) ≡ 0
destroy_items-established l i [] = refl
destroy_items-established l i ((k, c) ∷ m) = destroy_items-established l i m

destroy_items-destroyed :
    (l i : ℕ) (m : List (List ℕ × Conn)) → destroyed l i (destroy_items m) ≡ live l i m
destroy_items-destroyed l i [] = refl
destroy_items-destroyed l i ((k, c) ∷ m) = omega (arith, destroy_items-destroyed l i m)

-- From its start on, whatever connections arrive and are removed, a server has given each loop every
-- connection to establish as often as to destroy, and once more while the connection is in the
-- table with that loop as its own; and once the server is destroyed, as often. Fewer than 2^31
-- connections arrive, a removal runs while its connection is in the table, and the server's address
-- is printed with at most 51 characters.
pub Runs-balanced :
    (base : ℕ) (ip_port name : List ℕ) (threads : ℤ) (has_callback : Bool) (fresh : ℕ → ℕ)
    {s : TcpServer}
    → length ip_port ≤ 51
    → Runs (start has_callback fresh (set_thread_num threads (create base ip_port name))) s
    → ((l i : ℕ) → established l i s.tasks ≡ destroyed l i s.tasks + live l i s.connections)
      × ((l i : ℕ) → established l i (dispose s).tasks ≡ destroyed l i (dispose s).tasks)
unfolding dispose
Runs-balanced base ip_port name threads has_callback fresh {s} short runs =
    let v = Runs-Sound runs (start-Sound base ip_port name threads has_callback fresh short) in
    (
      v.balanced,
      λ l i. omega (
        arith,
        v.balanced l i,
        established-append l i s.tasks (destroy_items s.connections),
        destroyed-append l i s.tasks (destroy_items s.connections),
        destroy_items-established l i s.connections,
        destroy_items-destroyed l i s.connections,
      ),
    )
