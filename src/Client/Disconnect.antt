-- ===== src/Client/Disconnect.antt =====
-- src/net/TcpClient.cpp: what `disConnect` stops.
use protobase.Common.{
  ℕ, ◌≡◌, ◌∙◌, refl, ap, Bool, true, false, ◌&&◌, none, some, if_then, if_else, if_both, arith,
}
use protobase.Connection.{Connection, k_connected}
use protobase.Connection.Handlers.{on_connection_establish}
use protobase.Connector.{Connector, is_connecting, stop, stop_in_loop, retry, remove_channel}
use protobase.Client.{TcpClient, made, disconnect, client_stop, new_connection, connector_writes}

not_connect : (a b c d : Bool) → c ≡ false → (a && b && c && d) ≡ false
not_connect a b c d e = ground arith

stop-connect : (k : Connector) → (stop k).connect ≡ false
unfolding stop stop_in_loop retry remove_channel
stop-connect k =
    if_both (λ (k' : Connector). k'.connect ≡ false) {b = is_connecting k.state} _ _ (λ e. refl)
      (λ e. refl)

-- A client that is disconnected while its attempt is under way, and has no connection, gets one in
-- state connected as soon as the socket is writable; one that is stopped then gets none.
disconnect-connector_writes :
    (in_loop : Bool) (id : ℕ) (c : TcpClient)
    → c.connection ≡ none
    → is_connecting c.connector.state ≡ true
    → c.connector.connect ≡ true
    → c.connector.has_callback ≡ true
    → ((conn : Connection) × ((connector_writes false id (disconnect in_loop c)).connection
          ≡ some conn)
        × (conn.state ≡ k_connected))
      × ((connector_writes false id (client_stop c)).connection ≡ none)
unfolding connector_writes disconnect client_stop new_connection made on_connection_establish
disconnect-connector_writes in_loop id c e connecting on cb =
    let k = stop c.connector in
    (
      (
        _,
        ap (λ (c' : TcpClient). c'.connection)
            (if_then
              {b = is_connecting c.connector.state
                && true
                && c.connector.connect
                && c.connector.has_callback}
              _ _ (ground arith)),
        refl,
      ),
      ap (λ (c' : TcpClient). c'.connection)
            (if_else {b = is_connecting k.state && true && k.connect && k.has_callback} _ _ (
              not_connect (is_connecting k.state) true k.connect k.has_callback
                (stop-connect c.connector)))
          ∙ e,
    )
