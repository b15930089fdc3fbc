-- ===== src/Muduo/Connection/Laws.antt =====
-- When a connection is in order, and what the parts of its functions do to one that is.
use linux_os.Base.{
  ℕ, subst, ◌≡◌, refl, sym, some, true, false, arith, ltb, Bool-cases, inl, inr, length, update,
  ◌⊎◌,
}
use linux_os.Muduo.Buffer.{Buffer}
use linux_os.Muduo.Buffer.Laws.{IsValid, contents}
use linux_os.Muduo.Poll.{
  Epoll, EpollLaws, Poll, Channel, update_event, remove_event, enable_write, disable_write, remove,
  with_update, set_writeable,
}
use linux_os.Muduo.TimerWheel.{if_exists}
use linux_os.Muduo.Connection.{
  Connection, ConnStatus, disconnected, connecting, connected, disconnecting, stop_timer,
  want_write, detach, close_socket, release_in_loop, cancel_inactive_release_in_loop,
}

abbrev pub IsLive : ConnStatus → Type 0
IsLive disconnected = ⊥
IsLive connecting = ⊥
IsLive connected = Unit {0}
IsLive disconnecting = Unit {0}

-- The write event is wanted exactly while there is output.
abbrev pub WantsOutput : {K : Type 0} → Connection K → Type 0
WantsOutput c = c.channel.events.writeable ≡ ltb 0 (length (contents c.out_buffer))

module _ {K : Type 0} (os : Epoll K) where
  -- The socket is open, and the poll and the kernel watch it.
  pub record IsWatched (c : Connection K) : Type 0 where
    pub socket : c.has_socket ≡ true
    pub open_fd : os.is_open c.poll.kernel c.channel.fd ≡ true
    pub cared : c.poll.care_fd c.channel.fd ≡ true
    pub watched : os.is_watched c.poll.kernel c.channel.fd ≡ true

  -- It is closed, and nothing watches it.
  pub record IsGone (c : Connection K) : Type 0 where
    pub socket : c.has_socket ≡ false
    pub closed_fd : os.is_open c.poll.kernel c.channel.fd ≡ false
    pub not_cared : c.poll.care_fd c.channel.fd ≡ false

  -- It is open, and nothing watches it yet.
  pub record IsNew (c : Connection K) : Type 0 where
    pub socket : c.has_socket ≡ true
    pub open_fd : os.is_open c.poll.kernel c.channel.fd ≡ true
    pub not_cared : c.poll.care_fd c.channel.fd ≡ false
    pub not_watched : os.is_watched c.poll.kernel c.channel.fd ≡ false

  abbrev pub FitsStatus : ConnStatus → Connection K → Type 0
  FitsStatus disconnected c = IsGone c
  FitsStatus connecting c = IsNew c × WantsOutput c
  FitsStatus connected c = IsWatched c × WantsOutput c
  FitsStatus disconnecting c = IsWatched c × WantsOutput c

  pub record IsWell (c : Connection K) : Type 0 where
    pub in_valid : IsValid c.in_buffer
    pub out_valid : IsValid c.out_buffer
    pub fits : FitsStatus c.status c

  module _ (laws : EpollLaws os) (c : Connection K) where
    -- A change of the events that a watched connection wants.
    with_update_mod :
        (ch : Channel)
        → ch.fd ≡ c.channel.fd
        → IsWatched c
        → (p : Poll K) × (with_update os c.poll ch ≡ some (ch, p))
          × IsWatched (record c { channel = ch; poll = p })
    unfolding with_update update_event
    with_update_mod ch same w =
        let is_open : os.is_open c.poll.kernel ch.fd ≡ true = rw same w.open_fd in
        let is_watched : os.is_watched c.poll.kernel ch.fd ≡ true = rw same w.watched in
        let cared : c.poll.care_fd ch.fd ≡ true = rw same w.cared in
        let (k, e, opened, watched) =
          laws.mod_watched c.poll.kernel ch.fd ch.events is_open is_watched in
        (
          record c.poll { kernel = k },
          rw (cared, e, with_update, update_event),
          record { socket = w.socket; open_fd = opened; cared = cared; watched = watched },
        )

    pub want_write-lem :
        IsWatched c
        → (ch : Channel) × (p : Poll K) × (want_write os c
            ≡ some (record c { channel = ch; poll = p }))
          × IsWatched (record c { channel = ch; poll = p })
          × (ch.events.writeable ≡ true)
    unfolding want_write enable_write set_writeable
    want_write-lem w = elim (Bool-cases c.channel.events.writeable) [
      | inl e ↦ (c.channel, c.poll, rw e, w, e)
      | inr e ↦
          let (p, runs, w') = with_update_mod (set_writeable c.channel true) refl w in
          (set_writeable c.channel true, p, rw (e, runs), w', refl)
    ]

    pub disable_write_lem :
        IsWatched c
        → (p : Poll K) × (disable_write os c.channel c.poll
            ≡ some (set_writeable c.channel false, p))
          × IsWatched (record c { channel = set_writeable c.channel false; poll = p })
    unfolding disable_write set_writeable
    disable_write_lem w = with_update_mod (set_writeable c.channel false) refl w

    detach_lem :
        IsWatched c
        → ((detach os c).has_socket ≡ true) × ((detach os c).poll.care_fd c.channel.fd ≡ false)
    unfolding detach remove remove_event update
    detach_lem w = (w.socket, ground (arith, w.cared))

    detach_again : IsGone c → IsGone (detach os c)
    unfolding detach remove remove_event
    detach_again g = record {
      socket = g.socket;
      closed_fd = rw (g.not_cared, remove_event) g.closed_fd;
      not_cared = rw (g.not_cared, remove_event) g.not_cared;
    }

    close_socket-IsGone :
        c.has_socket ≡ true → c.poll.care_fd c.channel.fd ≡ false → IsGone (close_socket os c)
    unfolding close_socket
    close_socket-IsGone h out = record {
      socket = rw h refl;
      closed_fd = rw h (laws.close_open c.poll.kernel c.channel.fd).0;
      not_cared = rw h out;
    }

    close_socket_again : IsGone c → IsGone (close_socket os c)
    unfolding close_socket
    close_socket_again g =
        rw g.socket record { socket = refl; closed_fd = g.closed_fd; not_cared = g.not_cared }

    stop_timer-IsGone : IsGone c → IsGone (stop_timer c)
    unfolding stop_timer cancel_inactive_release_in_loop
    stop_timer-IsGone g = elim (Bool-cases (if_exists c.wheel c.timer_id)) [
      | inl e ↦ rw e record { socket = g.socket; closed_fd = g.closed_fd; not_cared = g.not_cared }
      | inr e ↦ rw e g
    ]

  counted : (c : Connection K) (n : ℕ) → IsGone c → IsGone (record c { closings = n })
  counted c n g = record { socket = g.socket; closed_fd = g.closed_fd; not_cared = g.not_cared }

  -- Releasing leaves nothing watched, whether the connection was watched or gone before.
  pub release_in_loop-IsGone :
      EpollLaws os → (c : Connection K) → IsWatched c ⊎ IsGone c → IsGone (release_in_loop os c)
  unfolding release_in_loop
  release_in_loop-IsGone laws c (inl w) =
      let (socket, out) = detach_lem laws c w in
      let closed = close_socket-IsGone laws (detach os c) socket out in
      counted (stop_timer (close_socket os (detach os c))) _
        (stop_timer-IsGone laws (close_socket os (detach os c)) closed)
  release_in_loop-IsGone laws c (inr g) = counted (stop_timer (close_socket os (detach os c))) _ (
      stop_timer-IsGone laws (close_socket os (detach os c))
        (close_socket_again laws (detach os c) (detach_again laws c g)))

  -- It touches neither buffer.
  pub release_in_loop-rest :
      (c : Connection K)
      → ((release_in_loop os c).status ≡ disconnected)
        × ((release_in_loop os c).in_buffer ≡ c.in_buffer)
        × ((release_in_loop os c).out_buffer ≡ c.out_buffer)
  unfolding release_in_loop stop_timer cancel_inactive_release_in_loop close_socket detach
  release_in_loop-rest c = ground arith

  -- A watched connection stays one whatever its buffers and its status become.
  pub keep_socket :
      (c : Connection K) (i o : Buffer) (s : ConnStatus)
      → IsWatched c
      → IsWatched (record c { in_buffer = i; out_buffer = o; status = s })
  keep_socket c i o s w = record {
    socket = w.socket;
    open_fd = w.open_fd;
    cared = w.cared;
    watched = w.watched;
  }

  pub fits_open :
      (s : ConnStatus) (c : Connection K) → IsLive s → FitsStatus s c → IsWatched c × WantsOutput c
  fits_open disconnected c l f = absurd l
  fits_open connecting c l f = absurd l
  fits_open connected c l f = f
  fits_open disconnecting c l f = f

  pub open_fits :
      (s : ConnStatus) (c : Connection K) → IsLive s → IsWatched c × WantsOutput c → FitsStatus s c
  open_fits disconnected c l f = absurd l
  open_fits connecting c l f = absurd l
  open_fits connected c l f = f
  open_fits disconnecting c l f = f

  pub closable_cases :
      (s : ConnStatus) (c : Connection K)
      → IsLive s ⊎ (s ≡ disconnected)
      → FitsStatus s c
      → IsWatched c ⊎ IsGone c
  closable_cases disconnected c l f = inr f
  closable_cases connecting c (inl l) f = absurd l
  closable_cases connecting c (inr l) f = absurd (cc l)
  closable_cases connected c l f = inl f.0
  closable_cases disconnecting c l f = inl f.0

  -- Releasing a connection that is in order, or was, leaves it in order and disconnected.
  pub release_in_loop-IsWell :
      EpollLaws os
      → (c : Connection K) → IsWatched c ⊎ IsGone c
      → IsValid c.in_buffer
      → IsValid c.out_buffer
      → IsWell (release_in_loop os c)
  release_in_loop-IsWell laws c w i o =
      let (status, same_in, same_out) = release_in_loop-rest c in
      let gone : FitsStatus disconnected (release_in_loop os c) = release_in_loop-IsGone laws c w in
      record {
        in_valid = subst IsValid (sym same_in) i;
        out_valid = subst IsValid (sym same_out) o;
        fits = subst (λ s. FitsStatus s (release_in_loop os c)) (sym status) gone;
      }
