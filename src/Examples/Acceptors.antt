-- ===== src/Examples/Acceptors.antt =====
-- src/net/Acceptor.cpp with an acceptor on descriptor 3, whose reserve is descriptor 4.
use protobase.Common.{◌+◌, ◌≡◌, refl, Option, some, arith, List, [], ◌∷◌, ◌++◌}
use protobase.Common.Int.{ℤ, pos, negsuc, times}
use protobase.Poller.{no_channels}
use protobase.Socket.{bind, setsockopt, ipproto_tcp, so_reuseaddr, so_reuseport}
use protobase.Acceptor.{
  Acceptor, Answer, accepted, limit_reached, refused, got, built, create,
  set_new_connection_callback, on_read, dispose,
}
use protobase.Acceptor.Descriptors.{Balanced, arrived, on_reads, on_reads-Balanced}

abbrev acceptor : Acceptor
acceptor = set_new_connection_callback (
    built 1 (pos 3) (pos 4) no_channels (record {
      sock_fd = pos 3;
      calls =
          setsockopt ipproto_tcp so_reuseaddr 1 ∷ setsockopt ipproto_tcp so_reuseport 1 ∷ bind ∷ [];
    }))

constructed :
    create 1 (pos 3) (pos 4) (pos 0) no_channels
    ≡ some (built 1 (pos 3) (pos 4) no_channels acceptor.socket)
unfolding create set_new_connection_callback built
constructed = refl

not_bound : create 1 (pos 3) (pos 4) (negsuc 0) no_channels ≡ Option.none
unfolding create
not_bound = refl

abbrev answers : List Answer
answers = accepted 5 ∷ limit_reached (pos 4) (pos 4) ∷ refused ∷ accepted 6 ∷ []

all_handed : (on_reads answers acceptor).handed ≡ pos 5 ∷ pos 6 ∷ []
unfolding set_new_connection_callback built on_read
all_handed = refl

on_reads-Balanced_example :
    ((on_reads answers acceptor).handed ≡ acceptor.handed ++ arrived answers)
    × Balanced (on_reads answers acceptor)
    × ((x : ℤ)
        → times x (dispose (on_reads answers acceptor)).opened
          ≡ times x (dispose (on_reads answers acceptor)).closed
            + times x (dispose (on_reads answers acceptor)).handed
            + times x (got (on_reads answers acceptor).idle_fd))
unfolding set_new_connection_callback built
on_reads-Balanced_example =
    on_reads-Balanced answers acceptor refl refl (record { count = λ x. omega arith })
