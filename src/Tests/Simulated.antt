-- ===== src/Tests/Simulated.antt =====
-- A system for the tests: one peer, whose connection moves bytes, interrupts, has nothing for now
-- or breaks as a plan says. With the plan used up it moves all there is.
use Prim.Native.Nat.{min}
use eventplus.Prelude.{
  ℕ, suc, ◌+◌, ◌≤◌, ◌<◌, ◌≡◌, refl, ◌++◌, List, [], ◌∷◌, ℤ, pos, negsuc, minus_one, some, length,
  take, drop, arith, length-take, take-append-drop, take_all, take-length-take, sym, ap, Bool,
  false, inr, ◌||◌, int_eq, int_eq_refl, if◌then◌else◌,
}
use eventplus.Common.Details.{Bytes}
use eventplus.Common.Os.{Os, EpollEvent, AddrInfo, eintr, eagain}
use eventplus.TcpHandler.Send.{SendLaws}
use eventplus.TcpHandler.Receive.{ReadLaws}
use eventplus.SocketHandler.Server.{DescriptorLaws}

pub data Plan : Type 0 where
  moves : ℕ → Plan
  interrupts waits breaks : Plan

pub record Wire : Type 0 where
  pub sent : Bytes
  pub incoming : Bytes
  pub plan : List Plan
  pub last_error : ℕ
  pub next_fd : ℕ
  pub closed : List ℤ
  pub opened : List ℤ
  pub sessions : List ℕ
  pub refuses_epoll : List ℤ
  pub deliveries : List (List EpollEvent)
  pub addresses : List AddrInfo

abbrev interruptions : List Plan → ℕ
interruptions [] = 0
interruptions (interrupts ∷ p) = suc (interruptions p)
interruptions (moves n ∷ p) = interruptions p
interruptions (waits ∷ p) = interruptions p
interruptions (breaks ∷ p) = interruptions p

abbrev pub patience : Wire → ℕ
patience w = interruptions w.plan

-- ECONNRESET
abbrev pub reset : ℕ
reset = 104

abbrev fails : ℕ → List Plan → Wire → Wire
fails e p w = record w { plan = p; last_error = e }

abbrev sends : List Plan → Bytes → Wire → ℤ × Wire
sends [] text w = (pos (length text), record w { sent = w.sent ++ text })
sends (moves n ∷ p) text w =
    (pos (length (take n text)), record w { plan = p; sent = w.sent ++ take n text })
sends (interrupts ∷ p) text w = (minus_one, fails eintr p w)
sends (waits ∷ p) text w = (minus_one, fails eagain p w)
sends (breaks ∷ p) text w = (minus_one, fails reset p w)

abbrev pub reads : List Plan → ℕ → Wire → ℤ × Bytes × Wire
reads [] n w =
    (pos (length (take n w.incoming)), take n w.incoming, record w { incoming = drop n w.incoming })
reads (moves k ∷ p) n w = (
  pos (length (take (min k n) w.incoming)),
  take (min k n) w.incoming,
  record w { plan = p; incoming = drop (min k n) w.incoming },
)
reads (interrupts ∷ p) n w = (minus_one, [], fails eintr p w)
reads (waits ∷ p) n w = (minus_one, [], fails eagain p w)
reads (breaks ∷ p) n w = (minus_one, [], fails reset p w)

abbrev elem : ℤ → List ℤ → Bool
elem fd [] = false
elem fd (x ∷ xs) = int_eq x fd || elem fd xs

abbrev without : ℤ → List ℤ → List ℤ
without fd [] = []
without fd (x ∷ xs) = if int_eq x fd then xs else x ∷ without fd xs

abbrev first_batch : List (List EpollEvent) → List EpollEvent
first_batch [] = []
first_batch (b ∷ bs) = b

abbrev later_batches : List (List EpollEvent) → List (List EpollEvent)
later_batches [] = []
later_batches (b ∷ bs) = bs

-- A descriptor can be watched unless it is listed as refused; a closed one has no flags.
abbrev pub simulated : Os Wire
simulated = record {
  errno = λ w. w.last_error;
  send = λ fd text w. sends w.plan text w;
  read = λ fd n w. reads w.plan n w;
  ioctl_fionread =
      λ fd w. if elem fd w.closed then (minus_one, 0, w) else (pos 0, length w.incoming, w);
  close = λ fd w. (pos 0, record w { closed = fd ∷ w.closed; opened = without fd w.opened });
  accept = λ fd w. (
    pos w.next_fd,
    record { sin_family = 2; sin_port = 0x901f; sin_addr = 0x0100007f },
    record w { next_fd = w.next_fd + 1 },
  );
  inet_ntop = λ addr w. (some (49 ∷ []), w);
  fcntl_getfd = λ fd w. (if elem fd w.closed then minus_one else pos 0, w);
  fcntl_getfl = λ fd w. (if elem fd w.closed then minus_one else pos 2, w);
  fcntl_setfl = λ fd flags w. (pos 0, w);
  epoll_create = λ n w. (pos w.next_fd, record w { next_fd = w.next_fd + 1 });
  epoll_ctl_add = λ ep fd events ptr w. (if elem fd w.refuses_epoll then minus_one else pos 0, w);
  epoll_ctl_del = λ ep fd w. (if elem fd w.refuses_epoll then minus_one else pos 0, w);
  epoll_wait = λ ep max ms w. (
    pos (length (first_batch w.deliveries)),
    first_batch w.deliveries,
    record w { deliveries = later_batches w.deliveries },
  );
  socket = λ family kind protocol w.
      (pos w.next_fd, record w { next_fd = w.next_fd + 1; opened = pos w.next_fd ∷ w.opened });
  bind = λ fd address w. (if elem fd w.refuses_epoll then minus_one else pos 0, w);
  listen = λ fd backlog w. (pos 0, w);
  connect = λ fd address w. (if elem fd w.refuses_epoll then minus_one else pos 0, w);
  getaddrinfo = λ host port w. (pos 0, w.addresses, w);
  inet_addr = λ text. 0x0100007f;
}

abbrev pub quiet_wire : Bytes → List Plan → Wire
quiet_wire incoming plan = record {
  sent = [];
  incoming = incoming;
  plan = plan;
  last_error = 0;
  next_fd = 7;
  closed = [];
  opened = [];
  sessions = [];
  refuses_epoll = [];
  deliveries = [];
  addresses = [];
}

sends-accepted :
    (p : List Plan) (text : Bytes) (w : Wire) (n : ℕ)
    → (sends p text w).0 ≡ pos n
    → (n ≤ length text) × ((sends p text w).1.sent ≡ w.sent ++ take n text)
sends-accepted [] text w n e =
    let count : length text ≡ n = cc in
    rw (← count) (omega arith, ap (◌++◌ w.sent) (sym (take_all _ text (omega arith))))
sends-accepted (moves k ∷ p) text w n e =
    let count : length (take k text) ≡ n = cc in
    rw (← count)
      (omega (arith, length-take k text), ap (◌++◌ w.sent) (sym (take-length-take k text)))
sends-accepted (interrupts ∷ p) text w n e = cc
sends-accepted (waits ∷ p) text w n e = cc
sends-accepted (breaks ∷ p) text w n e = cc

sends-refused :
    (p : List Plan) (text : Bytes) (w : Wire) (n : ℕ)
    → (sends p text w).0 ≡ negsuc n
    → ((sends p text w).1.sent ≡ w.sent)
      × ((sends p text w).1.last_error ≡ eintr
          → interruptions (sends p text w).1.plan < interruptions p)
sends-refused [] text w n e = cc
sends-refused (moves k ∷ p) text w n e = cc
sends-refused (interrupts ∷ p) text w n e = (refl, λ _. omega arith)
sends-refused (waits ∷ p) text w n e = (refl, λ h. absurd (omega arith))
sends-refused (breaks ∷ p) text w n e = (refl, λ h. absurd (omega arith))

sends-patient :
    (p : List Plan) (text : Bytes) (w : Wire)
    → w.plan ≡ p
    → interruptions (sends p text w).1.plan ≤ interruptions p
sends-patient [] text w e = rw e (omega arith)
sends-patient (moves k ∷ p) text w e = omega arith
sends-patient (interrupts ∷ p) text w e = omega arith
sends-patient (waits ∷ p) text w e = omega arith
sends-patient (breaks ∷ p) text w e = omega arith

pub simulated-SendLaws : (fd : ℤ) → SendLaws simulated fd (λ w. w.sent) patience
simulated-SendLaws fd = record {
  accepted = λ text w. sends-accepted w.plan text w;
  refused = λ text w n e. (sends-refused w.plan text w n e).0;
  interrupted = λ text w n e. (sends-refused w.plan text w n e).1;
  patient = λ text w. sends-patient w.plan text w refl;
}

pub reads-stored :
    (p : List Plan) (n : ℕ) (w : Wire) (k : ℕ)
    → (reads p n w).0 ≡ pos k
    → (k ≤ n)
      × (length (reads p n w).1 ≡ k)
      × (w.incoming ≡ (reads p n w).1 ++ (reads p n w).2.incoming)
reads-stored [] n w k e =
    let count : length (take n w.incoming) ≡ k = cc in
    (omega (arith, length-take n w.incoming), count, sym (take-append-drop n w.incoming))
reads-stored (moves m ∷ p) n w k e =
    let count : length (take (min m n) w.incoming) ≡ k = cc in
    (
      omega (arith, length-take (min m n) w.incoming),
      count,
      sym (take-append-drop (min m n) w.incoming),
    )
reads-stored (interrupts ∷ p) n w k e = cc
reads-stored (waits ∷ p) n w k e = cc
reads-stored (breaks ∷ p) n w k e = cc

pub reads-refused :
    (p : List Plan) (n : ℕ) (w : Wire) (k : ℕ)
    → (reads p n w).0 ≡ negsuc k
    → ((reads p n w).1 ≡ [])
      × ((reads p n w).2.incoming ≡ w.incoming)
      × ((reads p n w).2.last_error ≡ eintr → interruptions (reads p n w).2.plan < interruptions p)
reads-refused [] n w k e = cc
reads-refused (moves m ∷ p) n w k e = cc
reads-refused (interrupts ∷ p) n w k e = (refl, refl, λ _. omega arith)
reads-refused (waits ∷ p) n w k e = (refl, refl, λ h. absurd (omega arith))
reads-refused (breaks ∷ p) n w k e = (refl, refl, λ h. absurd (omega arith))

reads-patient :
    (p : List Plan) (n : ℕ) (w : Wire)
    → w.plan ≡ p
    → interruptions (reads p n w).2.plan ≤ interruptions p
reads-patient [] n w e = rw e (omega arith)
reads-patient (moves k ∷ p) n w e = omega arith
reads-patient (interrupts ∷ p) n w e = omega arith
reads-patient (waits ∷ p) n w e = omega arith
reads-patient (breaks ∷ p) n w e = omega arith

pub simulated-ReadLaws : (fd : ℤ) → ReadLaws simulated fd (λ w. w.incoming) patience
simulated-ReadLaws fd = record {
  stored = λ n w. reads-stored w.plan n w;
  refused = λ n w k e. let (a, b, c) = reads-refused w.plan n w k e in (a, b);
  interrupted = λ n w k e. (reads-refused w.plan n w k e).2;
  patient = λ n w. reads-patient w.plan n w refl;
}

pub simulated-DescriptorLaws : DescriptorLaws simulated (λ w. w.opened)
simulated-DescriptorLaws = record {
  socket = λ f t p w. inr (w.next_fd, refl, refl);
  close = λ fd w rest e. rw (e, int_eq_refl fd) refl;
  bind = λ fd a w. refl;
  listen = λ fd n w. refl;
  connect = λ fd a w. refl;
  fcntl_getfl = λ fd w. refl;
  fcntl_setfl = λ fd flags w. refl;
  epoll_create = λ n w. refl;
  epoll_ctl_add = λ ep fd events p w. refl;
  getaddrinfo = λ a b w. refl;
}

pub reads-opened : (p : List Plan) (n : ℕ) (w : Wire) → (reads p n w).2.opened ≡ w.opened
reads-opened [] n w = refl
reads-opened (moves k ∷ p) n w = refl
reads-opened (interrupts ∷ p) n w = refl
reads-opened (waits ∷ p) n w = refl
reads-opened (breaks ∷ p) n w = refl
