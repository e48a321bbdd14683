-- ===== src/Server/Names.antt =====
-- src/net/TcpServer.cpp: the names of connections.
use protobase.Common.{
  ℕ, ◌≤◌, ◌<◌, ◌^◌, ◌≡◌, ◌∙◌, sym, ap, [], ◌∷◌, ◌++◌, arith, length, length-append, append_assoc,
  take_all,
}
use protobase.Common.Decimal.{decimal, decimal_inj, length-decimal}
use protobase.Common.Texts.{append_cancel}
use protobase.Server.{TcpServer, conn_name, name_end}

module _ (s : TcpServer) (short : length s.ip_port ≤ 51) where
  -- `nameBuf` is long enough for an address of at most 51 characters.
  conn_name_whole : (id : ℕ) → id < 2 ^ 31 → conn_name s id ≡ s.name ++ name_end s.ip_port id
  unfolding conn_name
  conn_name_whole id small =
      ap (λ t. s.name ++ t)
        (take_all 63 (name_end s.ip_port id)
          (omega (arith, length-append s.ip_port (b'#' ∷ decimal id), length-decimal id small)))

  -- Connections with different numbers have different names, where the numbers are below 2^31 and
  -- the address is printed with at most 51 characters.
  pub conn_name_inj : (i j : ℕ) → i < 2 ^ 31 → j < 2 ^ 31 → conn_name s i ≡ conn_name s j → i ≡ j
  conn_name_inj i j hi hj e =
      let whole = sym (conn_name_whole i hi) ∙ e ∙ conn_name_whole j hj in
      let ends = append_cancel s.name (name_end s.ip_port i) (name_end s.ip_port j) whole in
      let numbers =
        append_cancel (b'-' ∷ s.ip_port ++ b'#' ∷ []) (decimal i) (decimal j)
          (parts i ∙ ends ∙ sym (parts j)) in
      decimal_inj i j numbers
    where
      parts : (k : ℕ) → (b'-' ∷ s.ip_port ++ b'#' ∷ []) ++ decimal k ≡ name_end s.ip_port k
      parts k = ap (λ t. b'-' ∷ t) (append_assoc s.ip_port (b'#' ∷ []) (decimal k))
