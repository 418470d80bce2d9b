-- ===== src/SocketHandler/Server.antt =====
-- `createServerSocket` of src/socket/SocketHandler.cpp: what is open when it ends, on every path.
use eventplus.Prelude.{
  Option, ℕ, ◌≡◌, refl, ◌∙◌, ◌⊎◌, inl, inr, ℤ, pos, List, ◌∷◌, minus_one, int_eq, Result, ok, err,
  runtime_error, Bool-cases,
}
use eventplus.Common.Details.{Ptr, Bytes, SocketAddress, SocketDetails}
use eventplus.Common.Os.{Os}
use eventplus.TcpHandler.{is_negative}
use eventplus.SocketHandler.{
  somaxconn, server_details, set_non_blocking, start_listening, bind_and_listen,
  create_server_socket,
}

-- What the system promises of the descriptors of sockets: `opened` lists those that are open, the
-- latest first. An epoll instance is no socket.
pub record DescriptorLaws {W : Type 0} (os : Os W) (opened : W → List ℤ) : Type 0 where
  pub socket :
      (f t p : ℕ) (w : W)
      → (((os.socket f t p w).0 ≡ minus_one) × (opened (os.socket f t p w).1 ≡ opened w))
        ⊎ ((n : ℕ) × ((os.socket f t p w).0 ≡ pos n)
            × (opened (os.socket f t p w).1 ≡ pos n ∷ opened w))
  pub close :
      (fd : ℤ) (w : W) (rest : List ℤ) → opened w ≡ fd ∷ rest → opened (os.close fd w).1 ≡ rest
  pub bind : (fd : ℤ) (a : SocketAddress) (w : W) → opened (os.bind fd a w).1 ≡ opened w
  pub listen : (fd : ℤ) (n : ℕ) (w : W) → opened (os.listen fd n w).1 ≡ opened w
  pub connect : (fd : ℤ) (a : Bytes) (w : W) → opened (os.connect fd a w).1 ≡ opened w
  pub fcntl_getfl : (fd : ℤ) (w : W) → opened (os.fcntl_getfl fd w).1 ≡ opened w
  pub fcntl_setfl : (fd flags : ℤ) (w : W) → opened (os.fcntl_setfl fd flags w).1 ≡ opened w
  pub epoll_create : (n : ℕ) (w : W) → opened (os.epoll_create n w).1 ≡ opened w
  pub epoll_ctl_add :
      (ep fd : ℤ) (events : ℕ) (p : Option Ptr) (w : W)
      → opened (os.epoll_ctl_add ep fd events p w).1 ≡ opened w
  pub getaddrinfo : (a b : Bytes) (w : W) → opened (os.getaddrinfo a b w).2 ≡ opened w

module _ {W : Type 0} (opened : W → List ℤ) where
  -- A call that throws leaves open what was open before; one that returns adds its socket.
  abbrev pub Outcome : List ℤ → Result ℤ × SocketDetails × W → Type 0
  Outcome before (ok fd, d, w) = (opened w ≡ fd ∷ before) × (d.socket_id ≡ fd)
  Outcome before (err e, d, w) = (opened w ≡ before) × (e ≡ runtime_error)

module _ {W : Type 0} (os : Os W) (opened : W → List ℤ) (laws : DescriptorLaws os opened) where
  pub opened-set_non_blocking : (fd : ℤ) (w : W) → opened (set_non_blocking os fd w) ≡ opened w
  unfolding set_non_blocking
  opened-set_non_blocking fd w = elim (Bool-cases (int_eq (os.fcntl_getfl fd w).0 minus_one)) [
    | inl e ↦ rw e (laws.fcntl_getfl fd w)
    | inr e ↦ rw e (laws.fcntl_setfl fd _ _ ∙ laws.fcntl_getfl fd w)
  ]

  start_listening-Outcome :
      (before : List ℤ) (fd : ℤ) (d : SocketDetails) (w : W)
      → opened w ≡ fd ∷ before
      → d.socket_id ≡ fd
      → Outcome opened before (start_listening os fd d w)
  unfolding start_listening
  start_listening-Outcome before fd d w e i =
      let e' = laws.listen fd 4096 w ∙ e in
      elim (Bool-cases (int_eq (os.listen fd 4096 w).0 (pos 0))) [
        | inl good ↦ rw good (opened-set_non_blocking fd _ ∙ e', i)
        | inr bad ↦ rw bad (laws.close fd _ before e', refl)
      ]

  bind_and_listen-Outcome :
      (before : List ℤ) (fd : ℤ) (d : SocketDetails) (w : W)
      → opened w ≡ fd ∷ before
      → d.socket_id ≡ fd
      → Outcome opened before (bind_and_listen os fd d w)
  unfolding bind_and_listen
  bind_and_listen-Outcome before fd d w e i =
      let a = d.event_source_address in
      let e' = laws.bind fd a w ∙ e in
      elim (Bool-cases (int_eq (os.bind fd a w).0 (pos 0))) [
        | inl good ↦ rw good (start_listening-Outcome before fd d _ e' i)
        | inr bad ↦ rw bad (laws.close fd _ before e', refl)
      ]

-- On a system that keeps `DescriptorLaws`, `createServerSocket` leaks no descriptor: if it throws,
-- exactly those are open that were open before; if it returns, its socket besides, which is also
-- the one in the details.
pub create_server_socket-Outcome :
    {W : Type 0} (os : Os W) (opened : W → List ℤ)
    → DescriptorLaws os opened
    → (ip port : Bytes) (d : SocketDetails) (w : W)
    → Outcome opened (opened w) (create_server_socket os ip port d w)
unfolding create_server_socket
create_server_socket-Outcome os opened laws ip port d w = elim (laws.socket 2 1 0 w) [
  | inl (e, same) ↦ rw e (same, refl)
  | inr (n, e, more) ↦
      rw e (bind_and_listen-Outcome os opened laws (opened w) (pos n) _ _ more refl)
]

-- A descriptor, or `runtime_error`, and no other fault.
pub create_server_socket_cases :
    {W : Type 0} (os : Os W) (ip port : Bytes) (d : SocketDetails) (w : W)
    → ((fd : ℤ) × ((create_server_socket os ip port d w).0 ≡ ok fd))
      ⊎ ((create_server_socket os ip port d w).0 ≡ err runtime_error)
unfolding create_server_socket bind_and_listen start_listening
create_server_socket_cases os ip port d w =
    let (fd, w1) = os.socket 2 1 0 w in
    let a = (server_details os ip port fd d).event_source_address in
    let w2 = (os.bind fd a w1).1 in
    elim (Bool-cases (is_negative fd)) [
      | inl none_made ↦ rw none_made (inr refl)
      | inr made ↦ elim (Bool-cases (int_eq (os.bind fd a w1).0 (pos 0))) [
        | inr refused ↦ rw (made, refused) (inr refl)
        | inl bound ↦ elim (Bool-cases (int_eq (os.listen fd somaxconn w2).0 (pos 0))) [
          | inl good ↦ rw (made, bound, good) (inl (fd, refl))
          | inr bad ↦ rw (made, bound, bad) (inr refl)
        ]
      ]
    ]
