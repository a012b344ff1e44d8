-- ===== src/Sockets/Loopback.antt =====
-- src/sockcan/_protocol.py: `connect_to_socketcan`, with the options of a raw CAN socket. The calls of the
-- operating system are parameters.
use sockcan.Prelude.{ℕ}
use sockcan.Prelude.{Result, ok, call_then}

pub data LoopbackMode : Type 0 where
  off for_other_socks on : LoopbackMode

-- The channel is known by a number.
pub record SocketcanConfig : Type 0 where
  pub channel : ℕ
  pub loopback : LoopbackMode

abbrev pub sol_can_raw : ℕ
sol_can_raw = 101

abbrev pub can_raw_recv_own_msgs : ℕ
can_raw_recv_own_msgs = 4

abbrev pub can_raw_loopback : ℕ
can_raw_loopback = 3

abbrev pub so_timestampns : ℕ
so_timestampns = 35

-- `1 if config.loopback == LoopbackMode.ON else 0`
abbrev pub recv_own_value : LoopbackMode → ℕ
recv_own_value on = 1
recv_own_value _ = 0

abbrev pub loopback_value : LoopbackMode → ℕ
loopback_value for_other_socks = 1
loopback_value _ = 0

module _ {W : Type 0} (sol_socket : ℕ) (socket : W → Result ℕ × W)
    (setsockopt : ℕ → ℕ → ℕ → ℕ → W → Result (Unit {0}) × W)
    (bind : ℕ → ℕ → W → Result (Unit {0}) × W) where
  -- What is set on the new socket, in order, before it is bound.
  unfoldable pub set_options : LoopbackMode → ℕ → W → Result (Unit {0}) × W
  set_options mode sock w =
      call_then (setsockopt sock sol_can_raw can_raw_recv_own_msgs (recv_own_value mode) w) (λ _ w₁.
        call_then (setsockopt sock sol_can_raw can_raw_loopback (loopback_value mode) w₁)
          (λ _ w₂. setsockopt sock sol_socket so_timestampns 1 w₂))

  unfoldable pub connect_to_socketcan : SocketcanConfig → W → Result ℕ × W
  unfolding set_options
  connect_to_socketcan config w = call_then (socket w) (λ sock w₁.
      call_then (set_options config.loopback sock w₁)
        (λ _ w₂. call_then (bind sock config.channel w₂) (λ _ w₃. (ok sock, w₃))))
