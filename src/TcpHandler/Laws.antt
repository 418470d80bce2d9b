-- ===== src/TcpHandler/Laws.antt =====
-- src/datatrasaction/server/TCPSocketHandler.cpp keeps what the server asks of a handler.
use eventplus.Prelude.{ℕ, refl}
use eventplus.Common.Os.{Os}
use eventplus.Common.Handler.{HandlerLaws}
use eventplus.TcpHandler.{init_connection, close_connection, tcp_server_handler}

pub tcp_server_handler-HandlerLaws :
    {W : Type 0} (os : Os W) (fuel uninit : ℕ) → HandlerLaws (tcp_server_handler os fuel uninit)
unfolding init_connection close_connection
tcp_server_handler-HandlerLaws os fuel uninit = record {
  opens = λ s w. (refl, refl, refl);
  closes = λ s w. (refl, refl, refl);
}
