-- ===== src/Sockets/Examples.antt =====
-- The pair of datagram sockets on a system where sockets are numbered and no connection succeeds.
use sockcan.Prelude.{ℕ, ◌+◌, refl, Bool, true, false, ◌&&◌, ◌==◌, ltb, if◌then◌else◌, arith}
use sockcan.Prelude.{none, Result, ok, raise, os_error}
use sockcan.Sockets.{SocketKind, sock_dgram, inet_socket_pair}
use sockcan.Sockets.Opened.{Opens, Closes, Paired}
use sockcan.Sockets.Timeout.{
  WindowsTimeout, PosixTimeout, send_timeout_value, round_div, milliseconds,
  send_timeout_value-near,
}
use sockcan.Prelude.{◌≡◌}
use sockcan.Sockets.Pairs.{inet_socket_pair-Paired}

-- The next number, and which of those below it are open.
abbrev Numbered : Type 0
Numbered = ℕ × (ℕ → Bool)

abbrev is_open : Numbered → ℕ → Bool
is_open w j = ltb j w.0 && w.1 j

abbrev socket : SocketKind → Numbered → Result ℕ × Numbered
socket kind (n, f) = (ok n, (n + 1, λ j. if j == n then true else f j))

abbrev close : ℕ → Numbered → Numbered
close fd (n, f) = (n, λ j. if j == fd then false else f j)

abbrev succeed : ℕ → Numbered → Result (Unit {0}) × Numbered
succeed fd w = (ok tt, w)

abbrev connect : ℕ → ℕ → Numbered → Result (Unit {0}) × Numbered
connect fd to w = (raise (os_error none), w)

socket-Opens : (kind : SocketKind) (w : Numbered) → Opens is_open w (socket kind w)
socket-Opens kind (n, f) = (ground arith, λ j. ground arith)

close-Closes : (fd : ℕ) (w : Numbered) → Closes is_open w fd (close fd w)
close-Closes fd (n, f) j = ground arith

abbrev nothing_open : Numbered
nothing_open = (3, λ j. false)

inet_socket_pair-Paired_example : Paired is_open nothing_open (
    inet_socket_pair socket succeed succeed connect
      (λ fd. socket sock_dgram)
      succeed
      (λ fd. true)
      close
      sock_dgram
      nothing_open)
inet_socket_pair-Paired_example =
    inet_socket_pair-Paired is_open socket succeed succeed connect (λ fd. socket sock_dgram) succeed
      (λ fd. true) close socket-Opens (λ fd. socket-Opens sock_dgram) (λ fd w j. refl)
      (λ fd w j. refl) (λ fd to w j. refl) (λ fd w j. refl) close-Closes sock_dgram nothing_open
      (socket sock_dgram nothing_open).1 (socket sock_dgram (socket sock_dgram nothing_open).1).1 3
      4 refl refl

-- The default of a millisecond.
send_timeout_value-near_example : WindowsTimeout 1000000 × PosixTimeout 1000000
send_timeout_value-near_example = send_timeout_value-near 1000000 (omega arith)

-- Half a millisecond is rounded away on Windows.
half_millisecond : send_timeout_value true 500000 ≡ ok (milliseconds 0)
unfolding send_timeout_value round_div
half_millisecond = refl
