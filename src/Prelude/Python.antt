-- ===== src/Prelude/Python.antt =====
-- The exceptions that the program raises and catches, with the class tests of its `except` clauses,
-- and the outcome of a call. Messages are not modelled.
use Prim.Native.Nat.{ℕ}
use mathlib.Core.Bool.{Bool, true, false}
use mathlib.Core.Option.{Option}

-- `os_error` is an OSError of no subclass named here, with its errno (none for `OSError(msg)`).
pub data Exception : Type 0 where
  timeout_error blocking_io_error : Exception
  broken_pipe_error connection_reset_error connection_aborted_error : Exception
  os_error : Option ℕ → Exception
  struct_error key_error value_error type_error runtime_error : Exception
  assertion_error overflow_error can_operation_error system_error : Exception

-- `except (TimeoutError, BlockingIOError)`, the tuple WOULD_BLOCK of the server.
abbrev pub is_would_block : Exception → Bool
is_would_block timeout_error = true
is_would_block blocking_io_error = true
is_would_block _ = false

-- `except (BrokenPipeError, ConnectionResetError, ConnectionAbortedError)`.
abbrev pub is_disconnect : Exception → Bool
is_disconnect broken_pipe_error = true
is_disconnect connection_reset_error = true
is_disconnect connection_aborted_error = true
is_disconnect _ = false

-- `except OSError`: the subclasses too.
abbrev pub is_os_error : Exception → Bool
is_os_error timeout_error = true
is_os_error blocking_io_error = true
is_os_error broken_pipe_error = true
is_os_error connection_reset_error = true
is_os_error connection_aborted_error = true
is_os_error (os_error n) = true
is_os_error _ = false

pub data Result {ℓ} (A : Type ℓ) : Type ℓ where
  ok : A → Result A
  raise : Exception → Result A

infixl 5 ◌>>=◌
abbrev pub ◌>>=◌ {ℓ κ} : {A : Type ℓ} {B : Type κ} → Result A → (A → Result B) → Result B
ok a >>= f = f a
raise e >>= f = raise e

-- One statement after another, each on the state that the one before it left: an exception ends them.
abbrev pub and_then :
    {S : Type 0} → Result (Unit {0}) × S → (S → Result (Unit {0}) × S) → Result (Unit {0}) × S
and_then (raise e, s) next = (raise e, s)
and_then (ok u, s) next = next s

pub and_then-keeps :
    {S : Type 0} (P : S → Type 0) (x : Result (Unit {0}) × S) (next : S → Result (Unit {0}) × S)
    → P x.1
    → ((s : S) → P s → P (next s).1)
    → P (and_then x next).1
and_then-keeps P (raise e, s) next p h = p
and_then-keeps P (ok u, s) next p h = h s p

-- A call whose result the next one uses.
abbrev pub call_then : {A B W : Type 0} → Result A × W → (A → W → Result B × W) → Result B × W
call_then (ok a, w) next = next a w
call_then (raise e, w) next = (raise e, w)
