-- ===== src/Socket.antt =====
-- src/net/Socket.h and src/net/Socket.cpp: a descriptor and the calls made on it. What the kernel
-- answers is an argument; where the code leaves the process by `exit` there is no socket. The
-- addresses are left out.
use protobase.Common.{
  ℕ, Bool, true, false, Option, none, some, List, [], ◌∷◌, ◌++◌, if◌then◌else◌, ◌==◌,
}
use protobase.Common.Int.{ℤ, pos, negsuc, same}

pub data Level : Type 0 where
  ipproto_tcp : Level
  ipproto_tp : Level
  sol_socket : Level

pub data OptName : Type 0 where
  tcp_nodelay : OptName
  so_reuseaddr : OptName
  so_reuseport : OptName
  so_keepalive : OptName

pub data Call : Type 0 where
  bind : Call
  listens : ℕ → Call
  shuts_write : Call
  setsockopt : Level → OptName → ℕ → Call
  closes : Call

pub record Socket : Type 0 where
  pub sock_fd : ℤ
  pub calls : List Call

unfoldable pub create : ℤ → Socket
create fd = record { sock_fd = fd; calls = [] }

abbrev pub call : Call → Socket → Socket
call k s = record s { calls = s.calls ++ k ∷ [] }

unfoldable pub bind_address : ℤ → Socket → Option Socket
bind_address bind_ret s = if same bind_ret (pos 0) then some (call bind s) else none

unfoldable pub listen : ℤ → Socket → Option Socket
listen listen_ret s = if same listen_ret (pos 0) then some (call (listens 1024) s) else none

abbrev pub opt_val : Bool → ℕ
opt_val b = if b then 1 else 0

unfoldable pub shutdown_write : Socket → Socket
shutdown_write s = call shuts_write s

unfoldable pub tcp_no_delay : Bool → Socket → Socket
tcp_no_delay delay s = call (setsockopt ipproto_tp tcp_nodelay (opt_val delay)) s

unfoldable pub reuse_addr : Bool → Socket → Socket
reuse_addr reuse s = call (setsockopt ipproto_tcp so_reuseaddr (opt_val reuse)) s

unfoldable pub reuse_port : Bool → Socket → Socket
reuse_port reuse s = call (setsockopt ipproto_tcp so_reuseport (opt_val reuse)) s

unfoldable pub keep_alive : Bool → Socket → Socket
keep_alive on s = call (setsockopt sol_socket so_keepalive (opt_val on)) s

-- `m_sockFd > 0`.
abbrev pub above_zero : ℤ → Bool
above_zero (pos n) = if n == 0 then false else true
above_zero (negsuc n) = false

unfoldable pub close_fd : Socket → Socket
close_fd s = if above_zero s.sock_fd then call closes s else s
