-- ===== src/SocketHandler/Client.antt =====
-- `createClientSocket` of src/socket/SocketHandler.cpp: what is open when it ends, on every path.
use eventplus.Prelude.{
  ℕ, ◌≡◌, refl, ap, ◌∙◌, ◌⊎◌, inl, inr, ℤ, pos, List, [], ◌∷◌, minus_one, int_eq, Bool-cases,
}
use eventplus.Common.Details.{Bytes}
use eventplus.Common.Os.{Os, AddrInfo}
use eventplus.SocketHandler.{connect_first, after_loop, create_client_socket}
use eventplus.SocketHandler.Server.{DescriptorLaws, opened-set_non_blocking}

module _ {W : Type 0} (os : Os W) (opened : W → List ℤ) where
  -- -1 and nothing more open, or a socket that is open and no error value.
  abbrev pub Connected : List ℤ → ℤ × W → Type 0
  Connected before (fd, w) =
      ((fd ≡ minus_one) × (opened w ≡ before))
      ⊎ ((n : ℕ) × (fd ≡ pos n) × (opened w ≡ pos n ∷ before))

module _ {W : Type 0} (os : Os W) (opened : W → List ℤ) (laws : DescriptorLaws os opened) where
  connect_first-Connected :
      (addresses : List AddrInfo) (w : W) (before : List ℤ)
      → opened w ≡ before
      → Connected os opened before (connect_first os addresses w)
  unfolding connect_first
  connect_first-Connected [] w before e = inl (refl, e)
  connect_first-Connected (a ∷ later) w before e =
      elim (laws.socket a.family a.socktype a.protocol w) [
        | inl (f, same) ↦ rw f (connect_first-Connected later _ before (same ∙ e))
        | inr (n, f, more) ↦
            let w1 = (os.socket a.family a.socktype a.protocol w).1 in
            let open_one = laws.connect (pos n) a.addr w1 ∙ more ∙ ap (◌∷◌ (pos n)) e in
            rw f (elim (Bool-cases (int_eq (os.connect (pos n) a.addr w1).0 (pos 0))) [
              | inl good ↦ rw good (inr (n, refl, open_one))
              | inr bad ↦
                  rw bad
                    (connect_first-Connected later _ before (laws.close (pos n) _ before open_one))
            ])
      ]

  after_loop-Connected :
      (before : List ℤ) (r : ℤ × W)
      → Connected os opened before r
      → Connected os opened before (after_loop os r)
  unfolding after_loop
  after_loop-Connected before (fd, w) (inl (e, same)) = rw e (inl (refl, same))
  after_loop-Connected before (fd, w) (inr (n, e, more)) =
      rw e (inr (n, refl, opened-set_non_blocking os opened laws (pos n) w ∙ more))

-- On a system that keeps `DescriptorLaws`, `createClientSocket` leaks no descriptor: whichever
-- addresses refuse, it returns -1 with nothing more open, or one socket that is all that was added.
pub create_client_socket-Connected :
    {W : Type 0} (os : Os W) (opened : W → List ℤ)
    → DescriptorLaws os opened
    → (ip port : Bytes) (w : W) → Connected os opened (opened w) (create_client_socket os ip port w)
unfolding create_client_socket
create_client_socket-Connected os opened laws ip port w =
    let (status, addresses, w1) = os.getaddrinfo ip port w in
    let same = laws.getaddrinfo ip port w in
    elim (Bool-cases (int_eq status (pos 0))) [
      | inl good ↦ rw good (
          after_loop-Connected os opened laws (opened w) _
            (connect_first-Connected os opened laws addresses w1 (opened w) same))
      | inr bad ↦ rw bad (inl (refl, same))
    ]
