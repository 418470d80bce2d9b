-- ===== src/Program/Calls.antt =====
-- The calls that src/main.cpp makes with its clients: what is left open when they end.
use eventplus.Prelude.{
  ℕ, ◌≡◌, refl, ◌∙◌, ap, ◌⊎◌, inl, inr, ℤ, pos, minus_one, true, false, List, ◌∷◌, Option, none,
  err, null_pointer, Returns, Returns->>=, int_eq, Bool-cases, if◌then◌else◌, ◌||◌, ◌>>=◌,
}
use eventplus.Common.Details.{Bytes, Ptr, SocketDetails}
use eventplus.Common.Os.{Os}
use eventplus.Common.Ssl.{Ssl}
use eventplus.TcpHandler.{is_negative}
use eventplus.SocketHandler.Server.{DescriptorLaws}
use eventplus.TlsClient
use eventplus.TlsClient.{
  TlsClient, create_tls_client, create_socket, open_session, init, connect, close,
}
use eventplus.TlsClient.Closing.{
  SslKeeps, Holds, HasSession, create_socket-opened, open_session-Holds, open_session-HasSession,
  close-Holds, close-null, send_data-Holds, receive_data-Holds,
}
use eventplus.Program.{finish, exchange, send_data_using_tls, message, local_host, port_text}

module _ {W : Type 0} (os : Os W) (ssl : Ssl W) (opened : W → List ℤ)
    (laws : DescriptorLaws os opened) (keeps : SslKeeps ssl opened) where
  abbrev Left : List ℤ → ℤ × W → Type 0
  Left before r = opened r.1 ≡ before

  finish-Left :
      (r : ℤ) (c : TlsClient W) (before : List ℤ)
      → Holds opened before c
      → Returns (Left before) (finish os ssl r c)
  unfolding finish
  finish-Left r c before held =
      Returns->>= (λ c'. Holds opened before c' × (opened c'.world ≡ before)) (Left before)
        (close os ssl c) _ (close-Holds os ssl opened laws keeps c before held)
        λ c' (held', same). same

  -- `Close`, and the destructor's after it.
  close_twice-Left :
      (r : ℤ) (c : TlsClient W) (before : List ℤ)
      → Holds opened before c
      → Returns (Left before) (close os ssl c >>= finish os ssl r)
  close_twice-Left r c before held =
      Returns->>= (λ c'. Holds opened before c' × (opened c'.world ≡ before)) (Left before)
        (close os ssl c) _ (close-Holds os ssl opened laws keeps c before held)
        λ c' (held', same). finish-Left r c' before held'

  exchange-Left :
      (c : TlsClient W) (before : List ℤ)
      → Holds opened before c
      → HasSession c
      → Returns (Left before) (exchange os ssl c)
  unfolding exchange
  exchange-Left c before held has =
      Returns->>= (λ (r : ℤ × TlsClient W). Holds opened before r.1 × HasSession r.1) (Left before)
        (TlsClient.send_data ssl message c) _
        (send_data-Holds os ssl opened laws keeps message c before held has)
        λ (sent, c1) (held1, has1). elim (Bool-cases (is_negative sent || int_eq sent (pos 0))) [
          | inl failed ↦ rw failed (close_twice-Left minus_one c1 before held1)
          | inr good ↦ rw good (
              Returns->>= (λ (r : Bytes × TlsClient W). Holds opened before r.1) (Left before)
                (TlsClient.receive_data ssl (pos 1024) c1) _
                (receive_data-Holds os ssl opened laws keeps 1024 c1 before held1 has1)
                λ (response, c2) held2. close_twice-Left _ c2 before held2)
        ]

  finish-null :
      (r : ℤ) (c : TlsClient W) → c.client_socket ≡ none → finish os ssl r c ≡ err null_pointer
  unfolding finish
  finish-null r c e = rw (close-null os ssl opened laws keeps c e)

  -- With a socket, whatever the handshake says.
  session-Left :
      (uninit : Option Ptr) (n : ℕ) (c : TlsClient W) (before : List ℤ)
      → c.socket_details.socket_id ≡ pos n
      → opened c.world ≡ pos n ∷ before
      → let (connected, c') = open_session ssl uninit c in
        Returns (Left before) (if connected then exchange os ssl c' else finish os ssl minus_one c')
  session-Left uninit n c before f e =
      let held = open_session-Holds os ssl opened laws keeps uninit n c before f e in
      let c' = (open_session ssl uninit c).1 in
      elim (Bool-cases (open_session ssl uninit c).0) [
        | inl good ↦ rw good (
            exchange-Left c' before held
              (open_session-HasSession os ssl opened laws keeps uninit c good))
        | inr bad ↦ rw bad (finish-Left minus_one c' before held)
      ]

  -- On a system and a library that keep their laws: if a context and a socket are made,
  -- `sendDataUsingTLS` returns, with as many sockets open as before, on every path; and if not, the
  -- destructor of its client reads through a null pointer.
  pub send_data_using_tls-closes :
      (uninit : SocketDetails) (uninit_ssl : Option Ptr) (w : W)
      → let (ready, c) = init ssl (create_tls_client uninit local_host port_text w) in
        let made = (create_socket os c).0 in
        ((ready ≡ true)
          × (made ≡ true)
          × Returns (Left (opened w)) (send_data_using_tls os ssl uninit uninit_ssl w))
        ⊎ (((ready ≡ false) ⊎ (made ≡ false))
            × (send_data_using_tls os ssl uninit uninit_ssl w ≡ err null_pointer))
  unfolding send_data_using_tls connect init create_tls_client
  send_data_using_tls-closes uninit uninit_ssl w =
      let c0 = create_tls_client uninit local_host port_text w in
      let c = (init ssl c0).1 in
      elim (Bool-cases (init ssl c0).0) [
        | inr bad ↦ inr (inl bad, rw bad (finish-null minus_one c refl))
        | inl good ↦ elim (create_socket-opened os ssl opened laws keeps c) [
          | inl (m, n, f, more) ↦
              let e = more ∙ ap (◌∷◌ (pos n)) (keeps.client_ctx_new w) in
              inl (good, m, (rw (good, m) (session-Left uninit_ssl n _ (opened w) f e)))
          | inr (m, same, kept) ↦ inr (inr m, rw (good, m) (finish-null minus_one _ kept))
        ]
      ]
