-- ===== src/Sockets.antt =====
-- src/sockcan/daemon/_server.py and _protocol.py: `_inet_socket_pair`, and `disable_nagle`. The calls of
-- the operating system are parameters; a socket is a number.
pub mod Opened
pub mod Pairs
pub mod Timeout
pub mod Loopback
mod Examples
use sockcan.Prelude.{ℕ, Bool, true, false, if◌then◌else◌, Result, ok, raise, call_then, is_os_error}

pub data SocketKind : Type 0 where
  sock_dgram sock_stream : SocketKind

module _ {W : Type 0} (socket : SocketKind → W → Result ℕ × W)
    (bind listen : ℕ → W → Result (Unit {0}) × W) (connect : ℕ → ℕ → W → Result (Unit {0}) × W)
    (accept : ℕ → W → Result ℕ × W) (set_nodelay : ℕ → W → Result (Unit {0}) × W)
    (is_tcp : ℕ → Bool) (close : ℕ → W → W) where
  unfoldable pub ignore_os_error : Result (Unit {0}) × W → Result (Unit {0}) × W
  ignore_os_error (ok u, w) = (ok tt, w)
  ignore_os_error (raise e, w) = if is_os_error e then (ok tt, w) else (raise e, w)

  unfoldable pub disable_nagle : ℕ → W → Result (Unit {0}) × W
  unfolding ignore_os_error
  disable_nagle sock w = if is_tcp sock then ignore_os_error (set_nodelay sock w) else (ok tt, w)

  -- The two datagram sockets after their `try`.
  unfoldable pub datagram_end : ℕ → ℕ → Result (Unit {0}) × W → Result (ℕ × ℕ) × W
  datagram_end conn1 conn2 (ok _, w) = (ok (conn1, conn2), w)
  datagram_end conn1 conn2 (raise e, w) =
      if is_os_error e then (raise e, close conn2 (close conn1 w)) else (raise e, w)

  -- The body of that `try`.
  unfoldable pub connect_datagrams : ℕ → ℕ → W → Result (Unit {0}) × W
  connect_datagrams conn1 conn2 w = call_then (bind conn1 w) (λ _ w₁.
      call_then (bind conn2 w₁)
        (λ _ w₂. call_then (connect conn1 conn2 w₂) (λ _ w₃. connect conn2 conn1 w₃)))

  -- What follows the `try` of the stream sockets, and its `finally`.
  unfoldable pub stream_end : ℕ → ℕ → Result ℕ × W → Result (ℕ × ℕ) × W
  unfolding disable_nagle
  stream_end listener conn1 (ok conn2, w) =
      call_then (disable_nagle conn1 (close listener w))
        (λ _ w₁. call_then (disable_nagle conn2 w₁) (λ _ w₂. (ok (conn1, conn2), w₂)))
  stream_end listener conn1 (raise e, w) =
      if is_os_error e
      then (raise e, close listener (close conn1 w))
      else (raise e, close listener w)

  unfoldable pub accept_stream : ℕ → ℕ → W → Result ℕ × W
  accept_stream listener conn1 w = call_then (bind listener w) (λ _ w₁.
      call_then (listen listener w₁)
        (λ _ w₂. call_then (connect conn1 listener w₂) (λ _ w₃. accept listener w₃)))

  unfoldable pub inet_stream_socket_pair : W → Result (ℕ × ℕ) × W
  unfolding accept_stream stream_end
  inet_stream_socket_pair w = call_then (socket sock_stream w) (λ listener w₁.
      call_then (socket sock_stream w₁)
        (λ conn1 w₂. stream_end listener conn1 (accept_stream listener conn1 w₂)))

  unfoldable pub inet_socket_pair : SocketKind → W → Result (ℕ × ℕ) × W
  unfolding inet_stream_socket_pair connect_datagrams datagram_end
  inet_socket_pair sock_stream w = inet_stream_socket_pair w
  inet_socket_pair sock_dgram w = call_then (socket sock_dgram w) (λ conn1 w₁.
      call_then (socket sock_dgram w₁)
        (λ conn2 w₂. datagram_end conn1 conn2 (connect_datagrams conn1 conn2 w₂)))
