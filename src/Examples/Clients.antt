-- ===== src/Examples/Clients.antt =====
-- src/net/TcpClient.cpp with a client of an empty poller, whose attempts are answered by hand.
use protobase.Common.{arith, true, false}
use protobase.Common.Int.{pos}
use protobase.Poller.{no_channels}
use protobase.Connector.{attempted, in_progress, try_later}
use protobase.Client.{
  TcpClient, create, client_connect, connector_writes, connection_closes, timer_runs,
}
use protobase.Client.Active.{Active, done, ticks, writes, ends, Runs-Active}

-- It retries, and its first attempt is under way.
abbrev under_way : TcpClient
under_way =
    client_connect (attempted (pos 3) in_progress) (record (create 1 no_channels) { retry = true })

-- It is connected, its connection ends, and the second attempt after that is under way.
abbrev later : TcpClient
later =
    timer_runs (attempted (pos 5) in_progress)
      (connection_closes (attempted (pos 4) try_later) (connector_writes false 2 under_way))

Runs-Active_example : Active 1 later
unfolding create client_connect connector_writes connection_closes
Runs-Active_example = Runs-Active 1 no_channels (attempted (pos 3) in_progress) tt (
    writes false 2 0 1 _ later (
      ends (attempted (pos 4) try_later) 0 1 _ later tt
        (ticks (attempted (pos 5) in_progress) 0 1 _ later tt (omega arith) (done 1 later))))
