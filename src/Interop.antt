-- ===== src/Interop.antt =====
-- src/sockcan/interop.py: the globals of the module and of python-can's table of backends. Strings are
-- known by numbers, but for the host, which goes into a request.
pub mod Override
pub mod Activation
pub mod Bus
pub mod Reading
pub mod Activated
pub mod Entry
pub mod Daemons
pub mod Deferred
pub mod Fast
mod Examples
use sockcan.Prelude.{ℕ, List, Bool, Option, Text, Dict}
use sockcan.Server.{Server}
use sockcan.Daemon.Life.{SocketcanDaemon}

pub data ServerMode : Type 0 where
  local_mode daemon_mode : ServerMode

-- `platform.system()`
pub data System : Type 0 where
  linux windows other_system : System

pub record BusParameters : Type 0 where
  pub channel : ℕ
  pub interface : ℕ
  pub bitrate : ℕ
  pub virtual : Bool

-- The contention time is that of the pacing; `local_server` and `local_daemon` are never read.
pub record SocketcanDaemonConfig : Type 0 where
  pub mode : ServerMode
  pub allow_run_daemon_locally : Bool
  pub host : Text
  pub port : ℕ
  pub linux_too : Bool
  pub use_native_timestamps : Bool

-- The names that a backend of this module can have.
pub data BackendName : Type 0 where
  fast_socketcan_bus userspace_socketcan_bus deferred_userspace_socketcan_bus : BackendName

-- An entry of python-can's BACKENDS: the module and the name of a class in it.
pub data Backend : Type 0 where
  sockcan_interop : BackendName → Backend
  other_backend : ℕ → Backend

-- A configuration is an object that `_global_config`, a caller and a deferred factory share: `configs`
-- is the store of these objects. `deferred` is the module's `_DeferredUserspaceSocketcanBus` with its
-- arguments, `daemons` are those that run in this process, and `world` has the rest.
pub record Interop (W H E : Type 0) : Type 0 where
  pub configs : ℕ → SocketcanDaemonConfig
  pub global_config : ℕ
  pub local_servers : Dict (Server W)
  pub backend : Option Backend
  pub deferred : Option (List BusParameters × ℕ)
  pub daemons : List (SocketcanDaemon W H)
  pub world : E
