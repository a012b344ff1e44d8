-- ===== src/Sockets/Pairs.antt =====
-- The pairs of sockets that the server makes: no socket is left open.
use sockcan.Prelude.{ℕ, ◌≡◌, refl, subst, ◌∙◌, arith, Bool, false}
use sockcan.Prelude.{Result, ok, raise, call_then, if-keeps, is_os_error, Bool-cases, inl, inr}
use sockcan.Sockets.{
  SocketKind, sock_dgram, sock_stream, ignore_os_error, disable_nagle, datagram_end,
}
use sockcan.Sockets.{connect_datagrams, stream_end, accept_stream, inet_stream_socket_pair}
use sockcan.Sockets.{inet_socket_pair}
use sockcan.Sockets.Opened.{
  Keeps, Opens, Closes, Paired, Keeps-then, Opens-then, HasTwo, two_opened,
}
use sockcan.Sockets.Opened.{swapped, kept, closed_again, listener_closed}

module _ {W : Type 0} (is_open : W → ℕ → Bool) where
  module _ (socket : SocketKind → W → Result ℕ × W) (bind listen : ℕ → W → Result (Unit {0}) × W)
      (connect : ℕ → ℕ → W → Result (Unit {0}) × W) (accept : ℕ → W → Result ℕ × W)
      (set_nodelay : ℕ → W → Result (Unit {0}) × W) (is_tcp : ℕ → Bool) (close : ℕ → W → W)
      (opens : (k : SocketKind) (w : W) → Opens is_open w (socket k w))
      (accepts : (fd : ℕ) (w : W) → Opens is_open w (accept fd w))
      (binds : (fd : ℕ) (w : W) → Keeps is_open w (bind fd w))
      (listens : (fd : ℕ) (w : W) → Keeps is_open w (listen fd w))
      (connects : (fd to : ℕ) (w : W) → Keeps is_open w (connect fd to w))
      (sets : (fd : ℕ) (w : W) → Keeps is_open w (set_nodelay fd w))
      (closes : (fd : ℕ) (w : W) → Closes is_open w fd (close fd w)) where
    -- Only an exception that is no OSError comes out of it.
    Quiet : W → Result (Unit {0}) × W → Type 0
    Quiet w (ok u, w') = (j : ℕ) → is_open w' j ≡ is_open w j
    Quiet w (raise e, w') = is_os_error e ≡ false

    ignore_os_error-Quiet :
        (w : W) (r : Result (Unit {0}) × W)
        → Keeps is_open w r
        → Quiet w (ignore_os_error socket bind listen connect accept set_nodelay is_tcp close r)
    unfolding ignore_os_error Quiet
    ignore_os_error-Quiet w (ok u, w') h = h
    ignore_os_error-Quiet w (raise e, w') h = elim (Bool-cases (is_os_error e)) [
      | inl lost ↦ rw (lost, ignore_os_error, Quiet) h
      | inr other ↦ rw (other, ignore_os_error, Quiet) other
    ]

    disable_nagle-Quiet :
        (fd : ℕ) (w : W)
        → Quiet w (disable_nagle socket bind listen connect accept set_nodelay is_tcp close fd w)
    unfolding disable_nagle Quiet
    disable_nagle-Quiet fd w =
        if-keeps (Quiet w) (is_tcp fd) _ (ok tt, w)
          (ignore_os_error-Quiet w (set_nodelay fd w) (sets fd w)) (λ j. refl)

    datagram_end-Paired :
        (w₀ : W) (a b : ℕ) (r : Result (Unit {0}) × W)
        → HasTwo is_open w₀ a b r.1
        → Paired is_open w₀
            (datagram_end socket bind listen connect accept set_nodelay is_tcp close a b r)
    unfolding datagram_end HasTwo
    datagram_end-Paired w₀ a b (ok u, w) two = (two.0, two.3)
    datagram_end-Paired w₀ a b (raise e, w) two = elim (Bool-cases (is_os_error e)) [
      | inl lost ↦ rw (lost, datagram_end) (λ _. closed_again is_open close closes w₀ w a b two)
      | inr other ↦ rw (other, datagram_end) (λ lost. absurd (ground (arith, lost, other)))
    ]

    connect_datagrams-Keeps :
        (a b : ℕ) (w : W)
        → Keeps is_open w
            (connect_datagrams socket bind listen connect accept set_nodelay is_tcp close a b w)
    unfolding connect_datagrams
    connect_datagrams-Keeps a b w = Keeps-then is_open w (bind a w) _ (binds a w) (λ w₁.
        Keeps-then is_open w₁ (bind b w₁) _ (binds b w₁) (λ w₂.
          Keeps-then is_open w₂ (connect a b w₂) (connect b a) (connects a b w₂) (connects b a)))

    accept_stream-Opens :
        (l a : ℕ) (w : W)
        → Opens is_open w
            (accept_stream socket bind listen connect accept set_nodelay is_tcp close l a w)
    unfolding accept_stream
    accept_stream-Opens l a w = Opens-then is_open w (bind l w) _ (binds l w) (λ w₁.
        Opens-then is_open w₁ (listen l w₁) _ (listens l w₁)
          (λ w₂. Opens-then is_open w₂ (connect a l w₂) (accept l) (connects a l w₂) (accepts l)))

    nagle_end :
        (w₀ w : W) (a b : ℕ) (r : Result (Unit {0}) × W)
        → HasTwo is_open w₀ a b w
        → Quiet w r
        → Paired is_open w₀ (call_then r (λ _ w'. (ok (a, b), w')))
    unfolding HasTwo Quiet
    nagle_end w₀ w a b (ok u, w') two quiet = (two.0, λ j. quiet j ∙ two.3 j)
    nagle_end w₀ w a b (raise e, w') two quiet = λ lost. absurd (ground (arith, quiet, lost))

    nagle_both :
        (w₀ w : W) (a b : ℕ) (r : Result (Unit {0}) × W)
        → HasTwo is_open w₀ a b w
        → Quiet w r
        → Paired is_open w₀ (
            call_then r (λ _ w₁.
              call_then
                (disable_nagle socket bind listen connect accept set_nodelay is_tcp close b w₁)
                (λ _ w₂. (ok (a, b), w₂))))
    unfolding HasTwo Quiet
    nagle_both w₀ w a b (ok u, w') two quiet =
        nagle_end w₀ w' a b
          (disable_nagle socket bind listen connect accept set_nodelay is_tcp close b w')
          (two.0, two.1, two.2, λ j. quiet j ∙ two.3 j) (disable_nagle-Quiet b w')
    nagle_both w₀ w a b (raise e, w') two quiet = λ lost. absurd (ground (arith, quiet, lost))

    stream_end-Paired :
        (w₀ w : W) (l a : ℕ) (r : Result ℕ × W)
        → HasTwo is_open w₀ l a w
        → Opens is_open w r
        → Paired is_open w₀
            (stream_end socket bind listen connect accept set_nodelay is_tcp close l a r)
    unfolding stream_end
    stream_end-Paired w₀ w l a (ok b, w') two new =
        nagle_both w₀ (close l w') a b
          (disable_nagle socket bind listen connect accept set_nodelay is_tcp close a (close l w'))
          (listener_closed is_open close closes w₀ w w' l a b two new)
          (disable_nagle-Quiet a (close l w'))
    stream_end-Paired w₀ w l a (raise e, w') two same = elim (Bool-cases (is_os_error e)) [
      | inl lost ↦
          rw (lost, stream_end)
            (λ _.
              closed_again is_open close closes w₀ w' a l (swapped is_open w₀ w w' l a two same))
      | inr other ↦ rw (other, stream_end) (λ lost. absurd (ground (arith, lost, other)))
    ]

    both :
        (kind : SocketKind) (w₀ w₁ w₂ : W) (a b : ℕ)
        → socket kind w₀ ≡ (ok a, w₁)
        → socket kind w₁ ≡ (ok b, w₂)
        → HasTwo is_open w₀ a b w₂
    both kind w₀ w₁ w₂ a b first second =
        two_opened is_open w₀ w₁ w₂ a b (subst (Opens is_open w₀) first (opens kind w₀))
          (subst (Opens is_open w₁) second (opens kind w₁))

    -- The system calls open and close the sockets that they are for, and no other. If the two first
    -- sockets can be made, then whatever fails after that: a pair that is returned is two different
    -- new sockets, and no other socket is open that was not so before; after an OSError every
    -- socket that was made is closed again, and those of before are open still.
    pub inet_socket_pair-Paired :
        (kind : SocketKind) (w₀ w₁ w₂ : W) (a b : ℕ)
        → socket kind w₀ ≡ (ok a, w₁)
        → socket kind w₁ ≡ (ok b, w₂)
        → Paired is_open w₀
            (inet_socket_pair socket bind listen connect accept set_nodelay is_tcp close kind w₀)
    unfolding inet_socket_pair inet_stream_socket_pair
    inet_socket_pair-Paired sock_dgram w₀ w₁ w₂ a b first second =
        rw (first, inet_socket_pair, second)
          (datagram_end-Paired w₀ a b
            (connect_datagrams socket bind listen connect accept set_nodelay is_tcp close a b w₂)
            (kept is_open w₀ w₂ a b
              (connect_datagrams socket bind listen connect accept set_nodelay is_tcp close a b w₂)
              (both sock_dgram w₀ w₁ w₂ a b first second) (connect_datagrams-Keeps a b w₂)))
    inet_socket_pair-Paired sock_stream w₀ w₁ w₂ a b first second =
        rw (first, inet_socket_pair, second)
          (stream_end-Paired w₀ w₂ a b
            (accept_stream socket bind listen connect accept set_nodelay is_tcp close a b w₂)
            (both sock_stream w₀ w₁ w₂ a b first second) (accept_stream-Opens a b w₂))
