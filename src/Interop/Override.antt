-- ===== src/Interop/Override.antt =====
-- src/sockcan/interop.py: python-can's entry for socketcan, replaced for good or for a while.
use sockcan.Prelude.{ℕ, List, Option, none, some, ◌≡◌, refl, Result, ok, raise, value_error}
use sockcan.Interop.{Interop, Backend, BackendName, sockcan_interop, fast_socketcan_bus}
use sockcan.Interop.{userspace_socketcan_bus, deferred_userspace_socketcan_bus, System, windows}
use sockcan.Interop.{BusParameters}

-- A factory under its name: the two classes, or the partial that starts the daemon.
pub data Factory : Type 0 where
  fast_class userspace_class : Factory
  deferred_factory : List BusParameters → ℕ → Factory

abbrev pub factory_name : Factory → BackendName
factory_name fast_class = fast_socketcan_bus
factory_name userspace_class = userspace_socketcan_bus
factory_name (deferred_factory parameters config) = deferred_userspace_socketcan_bus

module _ {W H E : Type 0} where
  -- `setattr(sys.modules[__name__], name, factory)`: a class is there under its name already.
  unfoldable pub bind_name : Factory → Interop W H E → Interop W H E
  bind_name (deferred_factory parameters config) s = record s {
    deferred = some (parameters, config);
  }
  bind_name _ s = s

  -- `_register_backend`, which gives the former entry.
  unfoldable pub register_backend : Factory → Interop W H E → Option Backend × Interop W H E
  unfolding bind_name
  register_backend factory s = (
    s.backend,
    record (bind_name factory s) { backend = some (sockcan_interop (factory_name factory)) },
  )

  unfoldable pub restore : Option Backend → Interop W H E → Interop W H E
  restore none s = s
  restore (some former_factory) s = record s { backend = some former_factory }

  -- `override_python_can` around a body that returns or raises: the exit is in a `finally`.
  unfoldable pub override_python_can :
      Factory
      → (Interop W H E → Result (Unit {0}) × Interop W H E)
      → Interop W H E
      → Result (Unit {0}) × Interop W H E
  unfolding register_backend restore
  override_python_can bus_cls body s =
      let (former_factory, s₁) = register_backend bus_cls s in
      let (r, s₂) = body s₁ in (r, restore former_factory s₂)

  unfoldable pub hijack_python_can : System → Interop W H E → Result (Unit {0}) × Interop W H E
  unfolding register_backend
  hijack_python_can windows s = (raise value_error, s)
  hijack_python_can _ s = (ok tt, (register_backend fast_class s).1)

  -- Whatever the body does, also where it raises, and even if it registers another backend itself:
  -- python-can has its former entry for socketcan again after the override, if it had one. If it had
  -- none, then it keeps the entry that the body has left.
  pub override_python_can-restores :
      (bus_cls : Factory) (body : Interop W H E → Result (Unit {0}) × Interop W H E)
      (s : Interop W H E)
      → let (r, s') = override_python_can bus_cls body s in
        let s₂ = (body (register_backend bus_cls s).1).1 in
        (r ≡ (body (register_backend bus_cls s).1).0)
        × ((b : Backend) → s.backend ≡ some b → s'.backend ≡ some b)
        × (s.backend ≡ none → s' ≡ s₂)
  unfolding override_python_can restore
  override_python_can-restores bus_cls body s =
      (refl, λ b had. rw (had, restore) refl, λ had. rw (had, restore) refl)
