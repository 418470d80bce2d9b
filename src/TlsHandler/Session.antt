-- ===== src/TlsHandler/Session.antt =====
-- `initConnection` and `closeConnection` of src/datatrasaction/server/TLSSocketHandler.cpp: what
-- they do with the `SSL` objects and the descriptor of a connection.
use eventplus.Prelude.{
  ℕ, ◌≡◌, refl, ap, ◌∙◌, ◌⊎◌, inl, inr, ℤ, pos, Bool, true, false, List, ◌∷◌, Option, none, some,
  Returns, Returns-map, Bool-cases, int_eq, arith, ◌||◌,
}
use eventplus.Common.Details.{Ptr, EventStore}
use eventplus.Common.Os.{Os}
use eventplus.Common.Ssl.{Ssl}
use eventplus.Common.Handler.{HandlerLaws}
use eventplus.Certificate.{CertificateHandler, get_new_certificate}
use eventplus.TcpHandler.{is_negative}
use eventplus.TlsHandler.{handshake, init_connection, close_connection, tls_server_handler}

-- `sessions` lists the `SSL` objects that are not freed, the latest first, and `closed` the calls
-- of `close`, the latest first.
pub record SessionLaws {W : Type 0} (os : Os W) (ssl : Ssl W) (sessions : W → List Ptr)
    (closed : W → List ℤ) : Type 0 where
  pub new :
      (c : Option Ptr) (w : W)
      → (((ssl.new c w).0 ≡ none) × (sessions (ssl.new c w).1 ≡ sessions w))
        ⊎ ((p : Ptr) × ((ssl.new c w).0 ≡ some p) × (sessions (ssl.new c w).1 ≡ p ∷ sessions w))
  pub new_closed : (c : Option Ptr) (w : W) → closed (ssl.new c w).1 ≡ closed w
  pub set_fd :
      (p : Ptr) (fd : ℤ) (w : W)
      → (sessions (ssl.set_fd p fd w) ≡ sessions w) × (closed (ssl.set_fd p fd w) ≡ closed w)
  pub accept :
      (p : Ptr) (w : W)
      → (sessions (ssl.accept p w).1 ≡ sessions w) × (closed (ssl.accept p w).1 ≡ closed w)
  pub connect :
      (p : Ptr) (w : W)
      → (sessions (ssl.connect p w).1 ≡ sessions w) × (closed (ssl.connect p w).1 ≡ closed w)
  pub get_error :
      (p : Ptr) (c : ℤ) (w : W)
      → (sessions (ssl.get_error p c w).1 ≡ sessions w)
        × (closed (ssl.get_error p c w).1 ≡ closed w)
  pub shutdown :
      (p : Ptr) (w : W)
      → (sessions (ssl.shutdown p w).1 ≡ sessions w) × (closed (ssl.shutdown p w).1 ≡ closed w)
  pub free :
      (p : Ptr) (w : W) (rest : List Ptr)
      → sessions w ≡ p ∷ rest
      → (sessions (ssl.free p w) ≡ rest) × (closed (ssl.free p w) ≡ closed w)
  pub close :
      (fd : ℤ) (w : W)
      → (sessions (os.close fd w).1 ≡ sessions w) × (closed (os.close fd w).1 ≡ fd ∷ closed w)

module _ {W : Type 0} (sessions : W → List Ptr) (closed : W → List ℤ) where
  -- The connection has a session of its own and is open; or it has none, and is closed.
  abbrev pub Opened : EventStore → W → Bool × EventStore × W → Type 0
  Opened s w (started, s', w') =
      (s'.socket_id ≡ s.socket_id)
      × (((started ≡ true)
            × (p : Ptr) × (s'.ssl ≡ some p)
            × (sessions w' ≡ p ∷ sessions w)
            × (closed w' ≡ closed w))
          ⊎ ((started ≡ false)
              × (s'.ssl ≡ none)
              × (sessions w' ≡ sessions w)
              × (closed w' ≡ s.socket_id ∷ closed w)))

module _ {W : Type 0} (os : Os W) (ssl : Ssl W) (sessions : W → List Ptr) (closed : W → List ℤ)
    (laws : SessionLaws os ssl sessions closed) where
  handshake-Opened :
      (p : Ptr) (s : EventStore) (w w0 : W)
      → s.ssl ≡ some p
      → sessions w ≡ p ∷ sessions w0
      → closed w ≡ closed w0
      → Opened sessions closed s w0 (handshake os ssl p s w)
  unfolding handshake
  handshake-Opened p s w w0 e live shut =
      let w1 = ssl.set_fd p s.socket_id w in
      let (status, w2) = ssl.accept p w1 in
      let w3 = (ssl.get_error p status w2).1 in
      let w4 = (os.close s.socket_id w3).1 in
      let a = (laws.accept p w1).0 ∙ (laws.set_fd p s.socket_id w).0 ∙ live in
      let b = (laws.accept p w1).1 ∙ (laws.set_fd p s.socket_id w).1 ∙ shut in
      elim (Bool-cases (is_negative status || int_eq status (pos 0))) [
        | inr good ↦ rw good (refl, inl (refl, p, e, a, b))
        | inl bad ↦
            let a' = (laws.close s.socket_id w3).0 ∙ (laws.get_error p status w2).0 ∙ a in
            let b' =
              (laws.close s.socket_id w3).1
              ∙ ap (◌∷◌ s.socket_id) ((laws.get_error p status w2).1 ∙ b) in
            let (c, d) = laws.free p w4 (sessions w0) a' in
            rw bad (refl, inr (refl, refl, c, d ∙ b'))
      ]

  -- With libraries that keep `SessionLaws`, for a store whose `SSL` pointer is set,
  -- `initConnection` with a loaded certificate either returns true, with one new session, which is
  -- the store's, and nothing closed; or it returns false, with no more sessions than before, none
  -- in the store, and the socket closed.
  pub init_connection-Opened :
      (h : CertificateHandler) (s : EventStore) (old : Ptr) (w : W)
      → s.ssl ≡ some old
      → Returns (Opened sessions closed s w) (init_connection os ssl (some h) s w)
  unfolding init_connection get_new_certificate
  init_connection-Opened h s old w e =
      let w1 = (ssl.new h.ssl_context w).1 in
      let shut = laws.new_closed h.ssl_context w in
      elim (laws.new h.ssl_context w) [
        | inl (n, same) ↦
            let (a, b) = laws.close s.socket_id w1 in
            rw (e, init_connection, n)
              (refl, inr (refl, refl, a ∙ same, b ∙ ap (◌∷◌ s.socket_id) shut))
        | inr (p, n, more) ↦
            rw (e, init_connection, n)
              (handshake-Opened p (record s { ssl = some p }) w1 w refl more shut)
      ]

  freed :
      (fd : ℤ) (p : Ptr) (w w0 : W) (rest : List Ptr)
      → sessions w ≡ p ∷ rest
      → closed w ≡ closed w0
      → (sessions (ssl.free p (os.close fd w).1) ≡ rest)
        × (closed (ssl.free p (os.close fd w).1) ≡ fd ∷ closed w0)
  freed fd p w w0 rest live shut =
      let (a, b) = laws.close fd w in
      let (c, d) = laws.free p (os.close fd w).1 rest (a ∙ live) in (c, d ∙ b ∙ ap (◌∷◌ fd) shut)

  close_connection_lem :
      (s : EventStore) (p : Ptr) (w : W) (rest : List Ptr)
      → s.ssl ≡ some p
      → sessions w ≡ p ∷ rest
      → (sessions (close_connection os ssl s w).1 ≡ rest)
        × (closed (close_connection os ssl s w).1 ≡ s.socket_id ∷ closed w)
  unfolding close_connection
  close_connection_lem s p w rest e live =
      let (status, w1) = ssl.shutdown p w in
      let (a, b) = laws.shutdown p w in
      let (c, d) = laws.get_error p status w1 in
      elim (Bool-cases (is_negative status)) [
        | inl bad ↦
            rw (e, close_connection, bad) (freed s.socket_id p _ w rest (c ∙ a ∙ live) (d ∙ b))
        | inr good ↦ rw (e, close_connection, good) (freed s.socket_id p w1 w rest (a ∙ live) b)
      ]

  -- For such a store: whether the handshake succeeds or not, `closeConnection` after
  -- `initConnection` leaves no session behind, and the socket has been closed exactly once.
  pub init_connection-close_connection :
      (h : CertificateHandler) (s : EventStore) (old : Ptr) (w : W)
      → s.ssl ≡ some old
      → Returns
          (λ r.
            let w' = (close_connection os ssl r.1 r.2).1 in
            (sessions w' ≡ sessions w) × (closed w' ≡ s.socket_id ∷ closed w))
          (init_connection os ssl (some h) s w)
  unfolding close_connection
  init_connection-close_connection h s old w e =
      Returns-map (Opened sessions closed s w) _ (init_connection os ssl (some h) s w)
        (init_connection-Opened h s old w e)
        λ (started, s', w') (i, o). elim o [
          | inl (t, p, e', a, b) ↦
              let (c, d) = close_connection_lem s' p w' (sessions w) e' a in
              (c, d ∙ (rw (i, b) refl))
          | inr (t, e', a, b) ↦ rw (e', close_connection) (a, b)
        ]

-- The handler keeps what the server asks of one, once a certificate is loaded.
pub tls_server_handler-HandlerLaws :
    {W : Type 0} (os : Os W) (ssl : Ssl W) (fuel : ℕ) (h : CertificateHandler)
    → HandlerLaws (tls_server_handler os ssl fuel (some h))
unfolding init_connection handshake close_connection
tls_server_handler-HandlerLaws os ssl fuel h = record {
  opens = λ s w. ground arith;
  closes = λ s w. ground arith;
}
