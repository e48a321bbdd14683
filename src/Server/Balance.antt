-- ===== src/Server/Balance.antt =====
-- src/net/TcpServer.cpp with src/net/EventLoopThreadPool.cpp: how connections are shared out.
use protobase.Common.{
  ℕ, ◌<◌, ◌≡◌, ◌∙◌, refl, sym, ap, Option, none, some, List, [], ◌∷◌, ◌++◌, append_assoc,
  append-nil, ◌>>=◌, length, take, drop,
}
use protobase.Pool.{Pool, get_next_loop, next_loops}
use protobase.Pool.Rounds.{next_loops-round}
use protobase.Server.{TcpServer, Conn, Task, conn_of, with_conn, new_connection}

-- Connections that arrive in a row, by descriptor and address.
unfoldable pub accept_all : List (ℕ × ℕ) → TcpServer → Option TcpServer
unfolding new_connection
accept_all [] s = some s
accept_all ((fd, id) ∷ xs) s = new_connection fd id s >>= accept_all xs

-- The loops that were given something to do.
abbrev pub loops_of : List (ℕ × Task) → List ℕ
loops_of [] = []
loops_of ((l, t) ∷ ts) = l ∷ loops_of ts

loops_of-append : (xs ys : List (ℕ × Task)) → loops_of (xs ++ ys) ≡ loops_of xs ++ loops_of ys
loops_of-append [] ys = refl
loops_of-append ((l, t) ∷ xs) ys = ap (λ ls. l ∷ ls) (loops_of-append xs ys)

-- What the server gave to loops, and its pool.
shared : TcpServer → Option (List ℕ × Pool)
shared s = some (loops_of s.tasks, s.pool)

behind : List ℕ → List ℕ × Pool → Option (List ℕ × Pool)
behind ls r = some (ls ++ r.0, r.1)

behind-cons :
    (ls : List ℕ) (l : ℕ) (o : Option (List ℕ × Pool))
    → (o >>= behind (ls ++ l ∷ [])) ≡ ((o >>= λ r. some (l ∷ r.0, r.1)) >>= behind ls)
unfolding behind
behind-cons ls l none = refl
behind-cons ls l (some r) = ap (λ xs. some (xs, r.1)) (append_assoc ls (l ∷ []) r.0)

-- The loops of connections that arrive in a row are those that the pool gives in a row.
accept_all-next_loops :
    (xs : List (ℕ × ℕ)) (s : TcpServer)
    → (accept_all xs s >>= shared) ≡ (next_loops (length xs) s.pool >>= behind (loops_of s.tasks))
unfolding accept_all next_loops new_connection with_conn conn_of shared behind
accept_all-next_loops [] s = ap (λ ls. some (ls, s.pool)) (sym (append-nil (loops_of s.tasks)))
accept_all-next_loops ((fd, id) ∷ xs) s =
    first (get_next_loop s.pool)
      (λ r. accept_all-next_loops xs (with_conn (conn_of fd id r.0 s) r.1 s))
  where
    given : ℕ × Pool → TcpServer
    given r = with_conn (conn_of fd id r.0 s) r.1 s

    first :
        (o : Option (ℕ × Pool))
        → ((r : ℕ × Pool)
            → (accept_all xs (given r) >>= shared)
              ≡ (next_loops (length xs) r.1 >>= behind (loops_of (given r).tasks)))
        → (((o >>= λ r. some (given r)) >>= accept_all xs) >>= shared) ≡ (
            (o >>= λ r. next_loops (length xs) r.1 >>= λ rs. some (r.0 ∷ rs.0, rs.1))
            >>= behind (loops_of s.tasks))
    first none rest = refl
    first (some r) rest =
        rest r
        ∙ ap (λ ls. next_loops (length xs) r.1 >>= behind ls)
            (loops_of-append s.tasks ((r.0, protobase.Server.establish (conn_of fd id r.0 s)) ∷ []))
        ∙ behind-cons (loops_of s.tasks) r.0 (next_loops (length xs) r.1)

shared-some :
    (o : Option TcpServer) (ls : List ℕ) (p : Pool)
    → (o >>= shared) ≡ some (ls, p)
    → (s' : TcpServer) × (o ≡ some s') × ((loops_of s'.tasks ≡ ls) × (s'.pool ≡ p))
unfolding shared
shared-some none ls p e = cc
shared-some (some s) ls p e = (s, refl, (cc, cc))

-- As many connections in a row as the pool has loops, whose next index is in range, are all accepted,
-- and go to each loop once: in order from the next one on, and round to the loop before it. The pool
-- is then as it was.
pub accept_all-round :
    (xs : List (ℕ × ℕ)) (s : TcpServer)
    → length xs ≡ length s.pool.loops
    → s.pool.next < length s.pool.loops
    → (s' : TcpServer) × (accept_all xs s ≡ some s')
      × ((loops_of s'.tasks
            ≡ loops_of s.tasks ++ (drop s.pool.next s.pool.loops ++ take s.pool.next s.pool.loops))
          × (s'.pool ≡ s.pool))
unfolding behind
accept_all-round xs s e h = shared-some (accept_all xs s) _ s.pool (
    accept_all-next_loops xs s
    ∙ ap (λ n. next_loops n s.pool >>= behind (loops_of s.tasks)) e
    ∙ ap (λ o. o >>= behind (loops_of s.tasks)) (next_loops-round s.pool h))
