-- ===== src/TlsClient/Closing.antt =====
-- `Connect` and `Close` of src/socket/client/TLSClient.cpp: the sockets that are open when they
-- end.
use eventplus.Prelude.{
  ℕ, ◌≡◌, refl, ◌∙◌, ap, ◌⊎◌, inl, inr, ℤ, pos, minus_one, true, false, List, [], ◌∷◌, Option, none,
  some, ok, err, null_pointer, Returns, int_eq, Bool-cases, Option-cases, ◌||◌,
}
use eventplus.Common.Details.{Bytes, Ptr, EventStore}
use eventplus.Common.Os.{Os, AddrInfo}
use eventplus.Common.Ssl.{Ssl}
use eventplus.TcpHandler.{is_negative}
use eventplus.SocketHandler.Server.{DescriptorLaws}
use eventplus.TlsClient.{
  TlsClient, try_addresses, create_socket, open_session, send_data, receive_data, session,
  free_session, free_context, close,
}

-- Calls of the library that open and close no socket.
pub record SslKeeps {W : Type 0} (ssl : Ssl W) (opened : W → List ℤ) : Type 0 where
  pub client_ctx_new : (w : W) → opened (ssl.client_ctx_new w).1 ≡ opened w
  pub ctx_free : (c : Ptr) (w : W) → opened (ssl.ctx_free c w) ≡ opened w
  pub new : (c : Option Ptr) (w : W) → opened (ssl.new c w).1 ≡ opened w
  pub set_fd : (p : Ptr) (fd : ℤ) (w : W) → opened (ssl.set_fd p fd w) ≡ opened w
  pub connect : (p : Ptr) (w : W) → opened (ssl.connect p w).1 ≡ opened w
  pub get_error : (p : Ptr) (c : ℤ) (w : W) → opened (ssl.get_error p c w).1 ≡ opened w
  pub write : (p : Ptr) (text : Bytes) (w : W) → opened (ssl.write p text w).1 ≡ opened w
  pub read : (p : Ptr) (n : ℕ) (w : W) → opened (ssl.read p n w).2 ≡ opened w
  pub shutdown : (p : Ptr) (w : W) → opened (ssl.shutdown p w).1 ≡ opened w
  pub free : (p : Ptr) (w : W) → opened (ssl.free p w) ≡ opened w

module _ {W : Type 0} (opened : W → List ℤ) where
  -- The client owns a store, and its socket is the one that is open besides `before`; or it has
  -- been closed.
  abbrev pub Holds : List ℤ → TlsClient W → Type 0
  Holds before c =
      ((store : EventStore) × (c.client_socket ≡ some store))
      × (((n : ℕ) × (c.socket_details.socket_id ≡ pos n) × (opened c.world ≡ pos n ∷ before))
          ⊎ ((c.socket_details.socket_id ≡ minus_one) × (opened c.world ≡ before)))

abbrev pub HasSession : {W : Type 0} → TlsClient W → Type 0
HasSession c =
    (store : EventStore) × (p : Ptr) × (c.client_socket ≡ some store) × (store.ssl ≡ some p)

module _ {W : Type 0} (os : Os W) (ssl : Ssl W) (opened : W → List ℤ)
    (laws : DescriptorLaws os opened) (keeps : SslKeeps ssl opened) where
  -- The loop over the addresses: true, with its last socket open, or false and none.
  try_addresses-opened :
      (addresses : List AddrInfo) (fd : ℤ) (w : W) (before : List ℤ)
      → opened w ≡ before
      → let (made, fd', w') = try_addresses os addresses fd w in
        ((made ≡ true) × (n : ℕ) × (fd' ≡ pos n) × (opened w' ≡ pos n ∷ before))
        ⊎ ((made ≡ false) × (opened w' ≡ before))
  unfolding try_addresses
  try_addresses-opened [] fd w before e = inr (refl, e)
  try_addresses-opened (a ∷ later) fd w before e =
      elim (laws.socket a.family a.socktype a.protocol w) [
        | inl (f, same) ↦ rw f (try_addresses-opened later minus_one _ before (same ∙ e))
        | inr (n, f, more) ↦
            let w1 = (os.socket a.family a.socktype a.protocol w).1 in
            let open_one = laws.connect (pos n) a.addr w1 ∙ more ∙ ap (◌∷◌ (pos n)) e in
            rw f (elim (Bool-cases (int_eq (os.connect (pos n) a.addr w1).0 (pos 0))) [
              | inl good ↦ rw good (inl (refl, n, refl, open_one))
              | inr bad ↦ rw bad (
                  try_addresses-opened later minus_one _ before
                    (laws.close (pos n) _ before open_one))
            ])
      ]

  pub create_socket-opened :
      (c : TlsClient W)
      → let (made, c') = create_socket os c in
        ((made ≡ true)
          × (n : ℕ) × (c'.socket_details.socket_id ≡ pos n)
          × (opened c'.world ≡ pos n ∷ opened c.world))
        ⊎ ((made ≡ false)
            × (opened c'.world ≡ opened c.world)
            × (c'.client_socket ≡ c.client_socket))
  unfolding create_socket
  create_socket-opened c =
      let (status, addresses, w) = os.getaddrinfo c.address c.port c.world in
      let same = laws.getaddrinfo c.address c.port c.world in
      elim (Bool-cases (int_eq status (pos 0))) [
        | inr bad ↦ rw bad (inr (refl, same, refl))
        | inl good ↦
            rw good
              (elim (try_addresses-opened addresses c.socket_details.socket_id w (opened c.world)
                same) [
                  | inl (m, n, f, more) ↦ inl (m, n, f, more)
                  | inr (m, none_more) ↦ inr (m, none_more, refl)
                ])
      ]

  -- The store is there after `open_session`, whatever the handshake says.
  pub open_session-Holds :
      (uninit : Option Ptr) (n : ℕ) (c : TlsClient W) (before : List ℤ)
      → c.socket_details.socket_id ≡ pos n
      → opened c.world ≡ pos n ∷ before
      → Holds opened before (open_session ssl uninit c).1
  unfolding open_session
  open_session-Holds uninit n c before f e =
      let w1 = (ssl.new c.ctx c.world).1 in
      let a = keeps.new c.ctx c.world ∙ e in
      elim (Option-cases (ssl.new c.ctx c.world).0) [
        | inl none_made ↦ rw (none_made, open_session) ((_, refl), inl (n, f, a))
        | inr (p, made) ↦
            let (status, w2) = ssl.connect p (ssl.set_fd p c.socket_details.socket_id w1) in
            let b = keeps.connect p _ ∙ keeps.set_fd p c.socket_details.socket_id w1 ∙ a in
            rw (made, open_session)
              (elim (Bool-cases (is_negative status || int_eq status (pos 0))) [
                | inl failed ↦ rw failed ((_, refl), inl (n, f, keeps.get_error p minus_one w2 ∙ b))
                | inr connected ↦ rw connected ((_, refl), inl (n, f, b))
              ])
      ]

  -- A successful handshake leaves a session in the store.
  pub open_session-HasSession :
      (uninit : Option Ptr) (c : TlsClient W)
      → (open_session ssl uninit c).0 ≡ true
      → HasSession (open_session ssl uninit c).1
  unfolding open_session
  open_session-HasSession uninit c done = elim (Option-cases (ssl.new c.ctx c.world).0) [
    | inl none_made ↦ let no = rw (none_made, open_session) at done in absurd (cc)
    | inr (p, made) ↦
        let (status, w2) =
          ssl.connect p (ssl.set_fd p c.socket_details.socket_id (ssl.new c.ctx c.world).1) in
        rw (made, open_session)
          (elim (Bool-cases (is_negative status || int_eq status (pos 0))) [
            | inl failed ↦ rw failed (_, p, refl, made)
            | inr connected ↦ rw connected (_, p, refl, made)
          ])
  ]

  session_lem : (c : TlsClient W) → HasSession c → (p : Ptr) × (session ssl c ≡ ok p)
  unfolding session
  session_lem c (store, p, s, e) = (p, rw (s, session, e))

  in_world-Holds :
      (c : TlsClient W) (before : List ℤ) (w : W)
      → opened w ≡ opened c.world
      → Holds opened before c
      → Holds opened before (record c { world = w })
  in_world-Holds c before w same (own, inl (n, f, e)) = (own, inl (n, f, same ∙ e))
  in_world-Holds c before w same (own, inr (f, e)) = (own, inr (f, same ∙ e))

  -- Either side of an exchange keeps what the client holds.
  pub send_data-Holds :
      (text : Bytes) (c : TlsClient W) (before : List ℤ)
      → Holds opened before c
      → HasSession c
      → Returns
          (λ (r : ℤ × TlsClient W). Holds opened before r.1 × HasSession r.1)
          (send_data ssl text c)
  unfolding send_data
  send_data-Holds text c before held (store, p, s, e) =
      let (q, found) = session_lem c (store, p, s, e) in
      rw found (in_world-Holds c before _ (keeps.write q text c.world) held, (store, p, s, e))

  pub receive_data-Holds :
      (size : ℕ) (c : TlsClient W) (before : List ℤ)
      → Holds opened before c
      → HasSession c
      → Returns
          (λ (r : Bytes × TlsClient W). Holds opened before r.1)
          (receive_data ssl (pos size) c)
  unfolding receive_data
  receive_data-Holds size c before held has =
      let (q, found) = session_lem c has in
      rw found (in_world-Holds c before _ (keeps.read q size c.world) held)

  -- A client without a store is not closed: `Close` reads through the null pointer.
  pub close-null : (c : TlsClient W) → c.client_socket ≡ none → close os ssl c ≡ err null_pointer
  unfolding close
  close-null c e = rw (e, close)

  free_session-opened : (store : EventStore) (w : W) → opened (free_session ssl store w) ≡ opened w
  unfolding free_session
  free_session-opened store w = elim (Option-cases store.ssl) [
    | inl e ↦ rw e
    | inr (p, e) ↦ rw e (keeps.free p _ ∙ keeps.shutdown p w)
  ]

  free_context-opened : (c : Option Ptr) (w : W) → opened (free_context ssl c w) ≡ opened w
  unfolding free_context
  free_context-opened none w = refl
  free_context-opened (some c) w = keeps.ctx_free c w

  -- `Close` closes the socket if it is open, and can be called again.
  pub close-Holds :
      (c : TlsClient W) (before : List ℤ)
      → Holds opened before c
      → Returns (λ c'. Holds opened before c' × (opened c'.world ≡ before)) (close os ssl c)
  unfolding close
  close-Holds c before ((store, s), inl (n, f, e)) =
      let w1 = free_session ssl store c.world in
      let a = laws.close (pos n) w1 before (free_session-opened store c.world ∙ e) in
      let b = free_context-opened c.ctx (os.close (pos n) w1).1 ∙ a in
      rw (s, close, f) (((_, refl), inr (refl, b)), b)
  close-Holds c before ((store, s), inr (f, e)) =
      let b = free_context-opened c.ctx _ ∙ free_session-opened store c.world ∙ e in
      rw (s, close, f) (((_, refl), inr (refl, b)), b)
