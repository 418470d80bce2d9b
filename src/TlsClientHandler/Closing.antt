-- ===== src/TlsClientHandler/Closing.antt =====
-- `initConnection` and `closeConnection` of src/datatrasaction/client/TLSClientSocketHandler.cpp:
-- what they do with the session and the descriptor.
use eventplus.Prelude.{
  ◌≡◌, refl, ap, ◌∙◌, ◌≢◌, inl, inr, List, ◌∷◌, ℤ, pos, minus_one, Option, none, some, Bool-cases,
  int_eq, int_eq_iff, arith, ◌||◌,
}
use eventplus.Common.Details.{Ptr, EventStore}
use eventplus.Common.Os.{Os}
use eventplus.Common.Ssl.{Ssl}
use eventplus.TcpHandler.{is_negative}
use eventplus.TlsHandler.Session.{SessionLaws}
use eventplus.TlsClientHandler.{
  connect_session, init_connection, end_session, end_socket, close_connection,
}

module _ {W : Type 0} (os : Os W) (ssl : Ssl W) (sessions : W → List Ptr)
    (closed : W → List ℤ) where
  -- No session and no descriptor is left; the socket has been closed once more than before.
  abbrev pub Closed : ℤ → List Ptr → List ℤ → EventStore × W → Type 0
  Closed fd live shut (s, w) =
      (s.ssl ≡ none) × (s.socket_id ≡ minus_one) × (sessions w ≡ live) × (closed w ≡ fd ∷ shut)

module _ {W : Type 0} (os : Os W) (ssl : Ssl W) (sessions : W → List Ptr) (closed : W → List ℤ)
    (laws : SessionLaws os ssl sessions closed) where
  end_socket-Closed :
      (live : List Ptr) (shut : List ℤ) (s : EventStore) (w : W)
      → s.socket_id ≢ minus_one
      → s.ssl ≡ none
      → sessions w ≡ live
      → closed w ≡ shut
      → Closed os ssl sessions closed s.socket_id live shut (end_socket os (s, w))
  unfolding end_socket
  end_socket-Closed live shut s w has_fd none_left a b =
      elim (Bool-cases (int_eq s.socket_id minus_one)) [
        | inl same ↦ absurd (has_fd ((int_eq_iff _ _).0 same))
        | inr other ↦ rw other (
          none_left,
          refl,
          (laws.close s.socket_id w).0 ∙ a,
          (laws.close s.socket_id w).1 ∙ ap (◌∷◌ s.socket_id) b,
        )
      ]

  close_connection-Closed :
      (live : List Ptr) (shut : List ℤ) (p : Ptr) (s : EventStore) (w : W)
      → s.socket_id ≢ minus_one
      → s.ssl ≡ some p
      → sessions w ≡ p ∷ live
      → closed w ≡ shut
      → Closed os ssl sessions closed s.socket_id live shut (close_connection os ssl s w)
  unfolding close_connection end_session
  close_connection-Closed live shut p s w has_fd e a b =
      let w1 = (ssl.shutdown p w).1 in
      let (c, d) = laws.free p w1 live ((laws.shutdown p w).0 ∙ a) in
      rw (e, end_session)
        (end_socket-Closed live shut (record s { ssl = none }) (ssl.free p w1) has_fd refl c
          (d ∙ (laws.shutdown p w).1 ∙ b))

  connect_session-Closed :
      (live : List Ptr) (shut : List ℤ) (p : Ptr) (s : EventStore) (w : W)
      → s.socket_id ≢ minus_one
      → s.ssl ≡ some p
      → sessions w ≡ p ∷ live
      → closed w ≡ shut
      → let r = connect_session ssl p s w in
        Closed os ssl sessions closed s.socket_id live shut (close_connection os ssl r.1 r.2)
  unfolding connect_session
  connect_session-Closed live shut p s w has_fd e a b =
      let w1 = ssl.set_fd p s.socket_id w in
      let (status, w2) = ssl.connect p w1 in
      let a' = (laws.connect p w1).0 ∙ (laws.set_fd p s.socket_id w).0 ∙ a in
      let b' = (laws.connect p w1).1 ∙ (laws.set_fd p s.socket_id w).1 ∙ b in
      elim (Bool-cases (is_negative status || int_eq status (pos 0))) [
        | inl failed ↦
            let (c, d) = laws.get_error p minus_one w2 in
            rw failed (close_connection-Closed live shut p s _ has_fd e (c ∙ a') (d ∙ b'))
        | inr connected ↦ rw connected (close_connection-Closed live shut p s w2 has_fd e a' b')
      ]

  close_again :
      (s : EventStore) (w : W)
      → s.ssl ≡ none
      → s.socket_id ≡ minus_one
      → close_connection os ssl s w ≡ (s, w)
  unfolding close_connection end_session end_socket
  close_again s w a b = ground arith

  opened-Closed :
      (ctx : Option Ptr) (s : EventStore) (w : W)
      → s.socket_id ≢ minus_one
      → let r = init_connection ssl ctx s w in
        Closed os ssl sessions closed s.socket_id
          (sessions w)
          (closed w)
          (close_connection os ssl r.1 r.2)
  unfolding init_connection close_connection end_session
  opened-Closed ctx s w has_fd =
      let w1 = (ssl.new ctx w).1 in
      elim (laws.new ctx w) [
        | inl (none_made, a) ↦
            rw (none_made, init_connection)
              (end_socket-Closed (sessions w) (closed w) (record s { ssl = none }) w1 has_fd refl a
                (laws.new_closed ctx w))
        | inr (p, made, a) ↦
            rw (made, init_connection)
              (connect_session-Closed (sessions w) (closed w) p (record s { ssl = some p }) w1
                has_fd refl a (laws.new_closed ctx w))
      ]

  -- With libraries that keep `SessionLaws`, for a store that has a socket: `closeConnection` after
  -- `initConnection`, whether or not there was a session and its handshake succeeded, leaves no
  -- session behind, has closed the socket exactly once, and would do nothing a second time.
  pub client_session-Closed :
      (ctx : Option Ptr) (s : EventStore) (w : W)
      → s.socket_id ≢ minus_one
      → let r = init_connection ssl ctx s w in
        let t = close_connection os ssl r.1 r.2 in
        Closed os ssl sessions closed s.socket_id (sessions w) (closed w) t
        × (close_connection os ssl t.0 t.1 ≡ t)
  client_session-Closed ctx s w has_fd =
      let r = init_connection ssl ctx s w in
      let t = close_connection os ssl r.1 r.2 in
      let first = opened-Closed ctx s w has_fd in (first, close_again t.0 t.1 first.0 first.1)
