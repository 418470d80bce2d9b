-- ===== src/Tests/Scheduler.antt =====
-- src/networkevent/EventScheduler.cpp: three threads and five sockets.
use eventplus.Prelude.{ℕ, ◌+◌, ◌*◌, ◌<◌, refl, List, [], ◌∷◌, pos, none, Returns, arith}
use eventplus.Common.Details.{Ptr, EventStore}
use eventplus.NetworkEvent.SocketEventHandler.{Leftover}
use eventplus.NetworkEvent.EventScheduler.{EventScheduler, create_scheduler}
use eventplus.NetworkEvent.EventScheduler.Loops.{IsValid, create_scheduler-IsValid}
use eventplus.NetworkEvent.EventScheduler.RoundRobin.{
  load, AllRegistered, add_sockets, add_sockets-balanced,
}
use eventplus.Tests.Simulated.{Wire, simulated, quiet_wire}
use eventplus.Tests.TcpHandler.{connection}

abbrev pub left : Leftover
left = record { dispatcher = none; remover = none }

abbrev wire : Wire
wire = record (quiet_wire [] []) { refuses_epoll = pos 5 ∷ [] }

abbrev three : EventScheduler
three = (create_scheduler simulated (left ∷ left ∷ left ∷ []) wire).0

three-IsValid : IsValid three
three-IsValid = create_scheduler-IsValid simulated (left ∷ left ∷ left ∷ []) wire (omega arith)

abbrev store : ℕ → EventStore
store fd = record connection { details = record connection.details { socket_id = pos fd } }

abbrev five : List (Ptr × EventStore)
five = (1, store 21) ∷ (2, store 5) ∷ (3, store 23) ∷ (4, store 24) ∷ (5, store 25) ∷ []

add_sockets-balanced_example :
    Returns
      (λ r.
        (j : ℕ) → j < 3 → (load j r.1 * 3 < 5 + 3) × (AllRegistered r.1 → 5 < (load j r.1 + 1) * 3))
      (add_sockets simulated three five wire)
unfolding create_scheduler
add_sockets-balanced_example =
    add_sockets-balanced simulated three five wire three-IsValid
      (refl, (refl, (refl, (refl, (refl, tt)))))
