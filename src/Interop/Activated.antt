-- ===== src/Interop/Activated.antt =====
-- The servers that an activation in the local mode starts.
use sockcan.Prelude.{ℕ, List, [], ◌∷◌, ◌≡◌, ◌≢◌, refl, sym, ap, ◌∙◌, arith, true, false, All}
use sockcan.Prelude.{some, Option-cases, inl, inr}
use sockcan.Prelude.{
  Result, ok, raise, Exception, and_then, and_then-keeps, call_then, runtime_error,
}
use sockcan.Prelude.{dict_get, dict_get_own, dict_get_other}
use sockcan.Server.{Server, start, bidirectional}
use sockcan.Threads.{init}
use sockcan.Interop.{Interop, BusParameters}
use sockcan.Interop.Activation.{init_global_server, add_local_server, start_local, start_all_local}

module _ {W H E : Type 0} where
  add_local_server-keeps :
      (k channel : ℕ) (v : Server W) (s : Interop W H E) (r : Result (Server W) × E)
      → channel ≢ k
      → dict_get k s.local_servers ≡ some v
      → dict_get k (add_local_server channel s r).1.local_servers ≡ some v
  unfolding add_local_server
  add_local_server-keeps k channel v s (raise x, e) other there = there
  add_local_server-keeps k channel v s (ok server, e) other there =
      dict_get_other k channel server s.local_servers other ∙ there

  -- A new server is running.
  unfoldable pub HasServer : Interop W H E → BusParameters → Type 0
  HasServer s p =
      (v : Server W) × (dict_get p.channel s.local_servers ≡ some v) × (v.running ≡ true)

  module _ (open_bus : BusParameters → E → Result W × E) where
    start_local-keeps :
        (k : ℕ) (v : Server W) (p : BusParameters) (s : Interop W H E)
        → dict_get k s.local_servers ≡ some v
        → dict_get k (start_local open_bus p s).1.local_servers ≡ some v
    unfolding start_local
    start_local-keeps k v p s there = elim (Option-cases (dict_get p.channel s.local_servers)) [
      | inl free ↦
          rw (free, start_local)
            (add_local_server-keeps k p.channel v s (init_global_server open_bus p s.world)
              (λ same. cc (same, free, there)) there)
      | inr (u, taken) ↦ rw (taken, start_local) there
    ]

    start_all_local-keeps :
        (k : ℕ) (v : Server W) (ps : List BusParameters) (s : Interop W H E)
        → dict_get k s.local_servers ≡ some v
        → dict_get k (start_all_local open_bus ps s).1.local_servers ≡ some v
    unfolding start_all_local
    start_all_local-keeps k v [] s there = there
    start_all_local-keeps k v (p ∷ ps) s there =
        and_then-keeps (λ t. dict_get k t.local_servers ≡ some v) (start_local open_bus p s)
          (start_all_local open_bus ps) (start_local-keeps k v p s there)
          (start_all_local-keeps k v ps)

    add_opened-HasServer :
        (p : BusParameters) (s : Interop W H E) (r : Result W × E)
        → (add_local_server p.channel s
            (call_then r (λ w e'. (ok (start bidirectional (init true false w)).1, e')))).0
          ≡ ok tt
        → HasServer
            (add_local_server p.channel s
              (call_then r (λ w e'. (ok (start bidirectional (init true false w)).1, e')))).1
            p
    unfolding add_local_server HasServer start
    add_opened-HasServer p s (ok w, e) h = (_, dict_get_own p.channel _ s.local_servers, refl)
    add_opened-HasServer p s (raise x, e) h = ground (arith, h)

    start_local-HasServer :
        (p : BusParameters) (s : Interop W H E)
        → (start_local open_bus p s).0 ≡ ok tt
        → HasServer (start_local open_bus p s).1 p
    unfolding start_local init_global_server
    start_local-HasServer p s = elim (Option-cases (dict_get p.channel s.local_servers)) [
      | inl free ↦ rw (free, start_local) (add_opened-HasServer p s (open_bus p s.world))
      | inr (u, taken) ↦ rw (taken, start_local) (λ h. ground (arith, h))
    ]

    start_all_local-HasServer :
        (ps : List BusParameters) (s : Interop W H E)
        → (start_all_local open_bus ps s).0 ≡ ok tt
        → All (HasServer (start_all_local open_bus ps s).1) ps
    unfolding start_all_local HasServer
    start_all_local-HasServer [] s h = tt
    start_all_local-HasServer (p ∷ ps) s h₀ =
        by_first (start_local open_bus p s) (start_local-HasServer p s)
          (start_all_local-HasServer ps) h₀
      where
        by_first :
            (x : Result (Unit {0}) × Interop W H E)
            → (x.0 ≡ ok tt → HasServer x.1 p)
            → ((t : Interop W H E)
                → (start_all_local open_bus ps t).0 ≡ ok tt
                → All (HasServer (start_all_local open_bus ps t).1) ps)
            → (and_then x (start_all_local open_bus ps)).0 ≡ ok tt
            → All (HasServer (and_then x (start_all_local open_bus ps)).1) (p ∷ ps)
        by_first (ok u, t) first later h =
            let (v, there, runs) = first refl in
            ((v, start_all_local-keeps p.channel v ps t there, runs), later t h)
        by_first (raise x, t) first later h = ground (arith, h)

    start_local_taken :
        (p : BusParameters) (s : Interop W H E) (v : Server W)
        → dict_get p.channel s.local_servers ≡ some v
        → start_local open_bus p s ≡ (raise runtime_error, s)
    unfolding start_local
    start_local_taken p s v taken = rw (taken, start_local) refl

    start_all_local-retry :
        (p : BusParameters) (ps : List BusParameters) (s t : Interop W H E) (x : Exception)
        → (start_local open_bus p s).0 ≡ ok tt
        → start_all_local open_bus (p ∷ ps) s ≡ (raise x, t)
        → start_all_local open_bus (p ∷ ps) t ≡ (raise runtime_error, t)
    unfolding start_all_local start_local HasServer
    start_all_local-retry p ps s t x begun failed =
        let (v, there, runs) = start_local-HasServer p s begun in
        let taken =
          ap (λ r. dict_get p.channel r.1.local_servers) (sym failed)
          ∙ and_then-keeps (λ u. dict_get p.channel u.local_servers ≡ some v)
              (start_local open_bus p s) (start_all_local open_bus ps) there
              (start_all_local-keeps p.channel v ps) in
        ap (λ r. and_then r (start_all_local open_bus ps)) (start_local_taken p t v taken)

    -- An activation in the local mode that raises nothing leaves a running server for each of the
    -- buses that it was asked for. One that fails after its first server has started cannot be
    -- repeated: the servers that it has started stay registered, so that the same activation raises
    -- RuntimeError at the first bus, and changes nothing.
    pub start_all_local-outcome :
        (p : BusParameters) (ps : List BusParameters) (s : Interop W H E)
        → ((start_all_local open_bus (p ∷ ps) s).0 ≡ ok tt
            → All (HasServer (start_all_local open_bus (p ∷ ps) s).1) (p ∷ ps))
          × ((t : Interop W H E) (x : Exception)
              → (start_local open_bus p s).0 ≡ ok tt
              → start_all_local open_bus (p ∷ ps) s ≡ (raise x, t)
              → start_all_local open_bus (p ∷ ps) t ≡ (raise runtime_error, t))
    start_all_local-outcome p ps s =
        (start_all_local-HasServer (p ∷ ps) s, λ t x. start_all_local-retry p ps s t x)
