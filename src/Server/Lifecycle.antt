-- ===== src/Server/Lifecycle.antt =====
-- src/net/TcpServer.cpp: the connections that a server gives to its loops, to establish and to destroy.
use protobase.Common.{
  ◌&&◌, ℕ, ◌+◌, ◌≤◌, ◌<◌, ◌^◌, ◌≡◌, ◌∙◌, refl, sym, ap, subst, inl, inr, Option, none, some, List,
  [], ◌∷◌, ◌++◌, if◌then◌else◌, ◌==◌, arith, length, Bool-cases, if_then, if_else,
}
use protobase.Common.Texts.{
  equal, equal→eq, find, put, erase, Unique, put_absent, erase_absent, find-append_none,
  Unique-append, find-erase-none, Unique-erase,
}
use protobase.Pool.{Pool}
use protobase.Pool.Rounds.{InRange, get_next_loop-InRange}
use protobase.Server.{
  TcpServer, Conn, Task, listen, establish, destroy, remove_later, conn_name, conn_of, with_conn,
  new_connection, remove_connection_in_loop,
}
use protobase.Server.Names.{conn_name_inj}

-- One for the loop and the connection that are looked for.
abbrev one_if : ℕ → ℕ → ℕ → Conn → ℕ
one_if l i loop c = if (loop == l) && (c.id == i) then 1 else 0

-- How often a loop was given a connection to establish, and to destroy.
abbrev pub established : ℕ → ℕ → List (ℕ × Task) → ℕ
established l i [] = 0
established l i ((loop, establish c) ∷ ts) = one_if l i loop c + established l i ts
established l i ((loop, listen) ∷ ts) = established l i ts
established l i ((loop, destroy c) ∷ ts) = established l i ts
established l i ((loop, remove_later c) ∷ ts) = established l i ts

abbrev pub destroyed : ℕ → ℕ → List (ℕ × Task) → ℕ
destroyed l i [] = 0
destroyed l i ((loop, destroy c) ∷ ts) = one_if l i loop c + destroyed l i ts
destroyed l i ((loop, listen) ∷ ts) = destroyed l i ts
destroyed l i ((loop, establish c) ∷ ts) = destroyed l i ts
destroyed l i ((loop, remove_later c) ∷ ts) = destroyed l i ts

-- How often it is in the table, with that loop as its own.
abbrev pub live : ℕ → ℕ → List (List ℕ × Conn) → ℕ
live l i [] = 0
live l i ((k, c) ∷ m) = one_if l i c.loop c + live l i m

pub established-append :
    (l i : ℕ) (xs ys : List (ℕ × Task))
    → established l i (xs ++ ys) ≡ established l i xs + established l i ys
established-append l i [] ys = omega arith
established-append l i ((loop, establish c) ∷ xs) ys = omega (arith, established-append l i xs ys)
established-append l i ((loop, listen) ∷ xs) ys = established-append l i xs ys
established-append l i ((loop, destroy c) ∷ xs) ys = established-append l i xs ys
established-append l i ((loop, remove_later c) ∷ xs) ys = established-append l i xs ys

pub destroyed-append :
    (l i : ℕ) (xs ys : List (ℕ × Task))
    → destroyed l i (xs ++ ys) ≡ destroyed l i xs + destroyed l i ys
destroyed-append l i [] ys = omega arith
destroyed-append l i ((loop, destroy c) ∷ xs) ys = omega (arith, destroyed-append l i xs ys)
destroyed-append l i ((loop, listen) ∷ xs) ys = destroyed-append l i xs ys
destroyed-append l i ((loop, establish c) ∷ xs) ys = destroyed-append l i xs ys
destroyed-append l i ((loop, remove_later c) ∷ xs) ys = destroyed-append l i xs ys

live-append :
    (l i : ℕ) (xs ys : List (List ℕ × Conn)) → live l i (xs ++ ys) ≡ live l i xs + live l i ys
live-append l i [] ys = omega arith
live-append l i ((k, c) ∷ xs) ys = omega (arith, live-append l i xs ys)

live-erase :
    (l i : ℕ) (k : List ℕ) (c : Conn) (m : List (List ℕ × Conn))
    → Unique m
    → find k m ≡ some c
    → live l i m ≡ one_if l i c.loop c + live l i (erase k m)
live-erase l i k c [] u h = cc
live-erase l i k c ((j, w) ∷ m) u h = elim (Bool-cases (equal j k)) [
  | inl e ↦
      let gone : find k m ≡ none = subst (λ t. find t m ≡ none) (equal→eq j k e) u.0 in
      let same : some w ≡ some c = sym (if_then {b = equal j k} (some w) (find k m) e) ∙ h in
      rw (e, erase_absent k m gone) (ap (λ o. of_conn o + live l i m) same)
  | inr e ↦
      let below : find k m ≡ some c = sym (if_else {b = equal j k} (some w) (find k m) e) ∙ h in
      rw e (omega (arith, live-erase l i k c m u.1 below))
]
  where
    of_conn : Option Conn → ℕ
    of_conn none = 0
    of_conn (some w) = one_if l i w.loop w

-- The table has each name once, the next numbers give names that are not in it, and each loop was
-- given every connection to establish as often as to destroy, and once more while it is in the
-- table and of that loop.
pub record Sound (s : TcpServer) : Type 0 where
  pub unique : Unique s.connections
  pub fresh : (k : ℕ) → s.next_conn_id ≤ k → k < 2 ^ 31 → find (conn_name s k) s.connections ≡ none
  pub short : length s.ip_port ≤ 51
  pub in_range : InRange s.pool
  pub balanced :
      (l i : ℕ) → established l i s.tasks ≡ destroyed l i s.tasks + live l i s.connections

with_conn-Sound :
    (fd id loop : ℕ) (pool : Pool) (s : TcpServer)
    → Sound s
    → InRange pool
    → s.next_conn_id + 1 < 2 ^ 31
    → Sound (with_conn (conn_of fd id loop s) pool s)
unfolding with_conn conn_of conn_name
with_conn-Sound fd id loop pool s v ok small =
    let c = conn_of fd id loop s in
    let absent = v.fresh s.next_conn_id (omega arith) (omega arith) in
    let table : put c.name c s.connections ≡ s.connections ++ (c.name, c) ∷ [] =
      put_absent c.name c s.connections absent in
    record {
      unique = rw table (Unique-append c.name c s.connections absent v.unique);
      fresh = λ k low high. rw table (
          find-append_none (conn_name s k) c.name c s.connections (v.fresh k (omega arith) high)
            (λ e. not_next k low (conn_name_inj s v.short s.next_conn_id k (omega arith) high e)));
      short = v.short;
      in_range = ok;
      balanced = λ l i. rw table (
          omega (
            arith,
            v.balanced l i,
            established-append l i s.tasks ((loop, establish c) ∷ []),
            destroyed-append l i s.tasks ((loop, establish c) ∷ []),
            live-append l i s.connections ((c.name, c) ∷ []),
          ));
    }
  where
    not_next : (k : ℕ) → s.next_conn_id + 1 ≤ k → s.next_conn_id ≡ k → ⊥
    not_next k low e = absurd (omega arith)

pub new_connection-Sound :
    (fd id : ℕ) (s : TcpServer)
    → Sound s
    → s.next_conn_id + 1 < 2 ^ 31
    → (s' : TcpServer) × (new_connection fd id s ≡ some s')
      × (Sound s' × (s'.next_conn_id ≡ s.next_conn_id + 1))
unfolding new_connection with_conn
new_connection-Sound fd id s v small =
    let (r, e, ok) = get_next_loop-InRange s.pool v.in_range in
    (
      with_conn (conn_of fd id r.0 s) r.1 s,
      rw (e, new_connection) refl,
      (with_conn-Sound fd id r.0 r.1 s v ok small, refl),
    )

pub remove-Sound :
    (c : Conn) (s : TcpServer)
    → Sound s
    → find c.name s.connections ≡ some c
    → Sound (remove_connection_in_loop c s)
unfolding remove_connection_in_loop conn_name
remove-Sound c s v h = record {
  unique = Unique-erase c.name s.connections v.unique;
  fresh = λ k low high. find-erase-none (conn_name s k) c.name s.connections (v.fresh k low high);
  short = v.short;
  in_range = v.in_range;
  balanced = λ l i. omega (
    arith,
    v.balanced l i,
    established-append l i s.tasks ((c.loop, destroy c) ∷ []),
    destroyed-append l i s.tasks ((c.loop, destroy c) ∷ []),
    live-erase l i c.name c s.connections v.unique h,
  );
}
