-- ===== src/SocketHandler/Port.antt =====
-- The port of src/socket/SocketHandler.cpp, from the number through its text to the address.
use eventplus.Prelude.{◌≡◌, ℤ, pos}
use eventplus.Common.Details.{SocketDetails}
use eventplus.Common.Os.{Os}
use eventplus.SocketHandler.{somaxconn, set_non_blocking}

-- The socket has been bound to the address in the details, listens and is set not to block.
abbrev pub BoundTo : {W : Type 0} → Os W → ℤ → SocketDetails → W → W → Type 0
BoundTo os fd d w w' =
    let (bound, w1) = os.bind fd d.event_source_address w in
    (bound ≡ pos 0)
    × ((os.listen fd somaxconn w1).0 ≡ pos 0)
    × (w' ≡ set_non_blocking os fd (os.listen fd somaxconn w1).1)
