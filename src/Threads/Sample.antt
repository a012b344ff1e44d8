-- ===== src/Threads/Sample.antt =====
-- Sockets for the tests: what each took, with number 5 always full, and reads that always fail.
use sockcan.Prelude.{ℕ, List, [], ◌∷◌, ◌++◌, refl, arith, true, false, ◌==◌, ==_self}
use sockcan.Prelude.{
  Bool-cases, inl, inr, if◌then◌else◌, Result, ok, raise, blocking_io_error, os_error,
}
use sockcan.Prelude.{none, some}
use sockcan.Filters.{Consumer}
use sockcan.Backlog.{Frame}
use sockcan.Server.{Server, update, read}
use sockcan.Server.View.{Sends}
use sockcan.Receive.Turn.{Accepts}
use sockcan.Threads.{init}

abbrev pub Wires : Type 0
Wires = ℕ → List Frame

unfoldable pub send : ℕ → Frame → Wires → Result (Unit {0}) × Wires
send fd f w =
    if fd == 5 then (raise blocking_io_error, w) else (ok tt, update w fd (w fd ++ (f ∷ [])))

pub send-Sends : (fd : ℕ) (f : Frame) (w : Wires) → Sends (λ v. v) w fd f (send fd f w)
unfolding send
send-Sends fd f w = elim (Bool-cases (fd == 5)) [
  | inl full ↦ rw (full, send) (λ j. refl)
  | inr room ↦ rw (room, send) (rw (==_self fd) refl, λ j diff. ground (arith, diff))
]

pub send-Accepts : (fd : ℕ) (f : Frame) (w : Wires) → Accepts (send fd f w)
unfolding send
send-Accepts fd f w = elim (Bool-cases (fd == 5)) [
  | inl full ↦ rw (full, send) refl
  | inr room ↦ rw (room, send) tt
]

abbrev pub recv : ℕ → Wires → Result Frame × Wires
recv fd w = (raise (os_error none), w)

abbrev pub bus_send : Frame → Wires → Result (Unit {0}) × Wires
bus_send f w = (ok tt, w)

abbrev pub frame : Frame
frame = record { can_id = 0x100; payload = 1 ∷ []; is_extended = false }

abbrev pub consumer : ℕ → Consumer
consumer fd = record { fd = fd; filters = none }

-- Two consumers without filters, on the sockets 4 and 5.
abbrev pub two_consumers : Server Wires
two_consumers = record (init true true (λ _. [])) {
  consumers = consumer 4 ∷ consumer 5 ∷ [];
  known = λ j. true;
  selector = λ j. some read;
}
