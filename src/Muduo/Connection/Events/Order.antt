-- ===== src/Muduo/Connection/Events/Order.antt =====
-- A connection stays in order under the calls that reach it.
use linux_os.Base.{
  ℕ, ◌≡◌, ◌∙◌, inl, inr, refl, subst, List, some, Bool, true, false, arith, Bool-cases, update,
}
use linux_os.Muduo.TimerWheel.{TimerWheel, refresh_timer_task}
use linux_os.Muduo.Buffer.{Buffer}
use linux_os.Muduo.Poll.{
  Epoll, EpollLaws, Channel, Exits, ctl_add, enable_read, with_update, update_event, set_readable,
}
use linux_os.Muduo.Connection.{
  Connection, ConnStatus, disconnected, connecting, connected, disconnecting, is_disconnected,
  is_connecting, Received, recv_again, recv_error, recv_end, recv_bytes, established_in_loop,
  send_in_loop, handle_read, release_in_loop, enable_inactive_release_in_loop,
  cancel_inactive_release_in_loop, refresh_timer, handle_any_event,
}
use linux_os.Muduo.Connection.Laws.{
  IsNew, IsWell, IsLive, FitsStatus, WantsOutput, closable_cases, release_in_loop-IsWell,
}
use linux_os.Muduo.Connection.Handlers.{
  Serves, KeepsWell, open_status, send_in_loop-KeepsWell, shut_down_in_loop-KeepsWell,
  handle_close-KeepsWell, read_bytes-KeepsWell, handle_write-KeepsWell,
}
use linux_os.Muduo.Connection.Events.{
  Callbacks, Call, call_established, call_any, call_read, call_write, call_close, call_send,
  call_shut_down, call_release, call_enable_release, call_cancel_release, serve, Allowed, Fits,
}

module _ {K : Type 0} (os : Epoll K) where
  -- The timers have no part in the order of a connection.
  timed-FitsStatus :
      (s : ConnStatus) (c : Connection K) (wheel : TimerWheel) (enabled : Bool)
      → FitsStatus os s c
      → FitsStatus os s (record c { wheel = wheel; enable_inactive_release = enabled })
  timed-FitsStatus disconnected c wheel enabled g = record {
    socket = g.socket;
    closed_fd = g.closed_fd;
    not_cared = g.not_cared;
  }
  timed-FitsStatus connecting c wheel enabled (n, wants) = (
    record {
      socket = n.socket;
      open_fd = n.open_fd;
      not_cared = n.not_cared;
      not_watched = n.not_watched;
    },
    wants,
  )
  timed-FitsStatus connected c wheel enabled (w, wants) = (
    record { socket = w.socket; open_fd = w.open_fd; cared = w.cared; watched = w.watched },
    wants,
  )
  timed-FitsStatus disconnecting c wheel enabled (w, wants) = (
    record { socket = w.socket; open_fd = w.open_fd; cared = w.cared; watched = w.watched },
    wants,
  )

  timed-IsWell :
      (c : Connection K) (wheel : TimerWheel) (enabled : Bool)
      → IsWell os c
      → IsWell os (record c { wheel = wheel; enable_inactive_release = enabled })
  timed-IsWell c wheel enabled well = record {
    in_valid = well.in_valid;
    out_valid = well.out_valid;
    fits = timed-FitsStatus c.status c wheel enabled well.fits;
  }

  refresh_timer-IsWell : (c : Connection K) → IsWell os c → IsWell os (refresh_timer c)
  unfolding refresh_timer
  refresh_timer-IsWell c well = elim (Bool-cases c.enable_inactive_release) [
    | inl e ↦
        rw (e, refresh_timer) (timed-IsWell c (refresh_timer_task c.wheel c.timer_id) true well)
    | inr e ↦ rw (e, refresh_timer) (timed-IsWell c c.wheel false well)
  ]

  established_with :
      (conn_cb : Connection K → Exits (Connection K)) (c : Connection K) (k : K)
      → c.status ≡ connecting
      → c.poll.care_fd c.channel.fd ≡ false
      → os.epoll_ctl c.poll.kernel ctl_add c.channel.fd (set_readable c.channel true).events
        ≡ some k
      → established_in_loop os conn_cb c
        ≡ conn_cb (record c {
          status = connected;
          channel = set_readable c.channel true;
          poll = record { kernel = k; care_fd = update c.poll.care_fd c.channel.fd true };
        })
  unfolding established_in_loop is_connecting enable_read with_update update_event set_readable
  established_with conn_cb c k e out runs = rw (e, out, runs) refl

  module _ (laws : EpollLaws os) (Room : Buffer → Buffer → Type 0) where
    established_in_loop-KeepsWell :
        (conn_cb : Connection K → Exits (Connection K))
        → Serves os Room conn_cb
        → (c : Connection K) → IsWell os c
        → c.status ≡ connecting
        → Room c.in_buffer c.out_buffer
        → KeepsWell os (established_in_loop os conn_cb c)
    unfolding set_readable update
    established_in_loop-KeepsWell conn_cb serves c well e room =
        let (new, wants) : IsNew os c × WantsOutput c =
          subst (λ s. FitsStatus os s c) e well.fits in
        let ch : Channel = set_readable c.channel true in
        let (k, runs, opened, watched) =
          laws.add_open c.poll.kernel c.channel.fd ch.events new.open_fd new.not_watched in
        let c' : Connection K = record c {
          status = connected;
          channel = ch;
          poll = record { kernel = k; care_fd = update c.poll.care_fd c.channel.fd true };
        } in
        let well' : IsWell os c' = record {
          in_valid = well.in_valid;
          out_valid = well.out_valid;
          fits = (
            record {
              socket = new.socket;
              open_fd = opened;
              cared = ground arith;
              watched = watched;
            },
            wants,
          );
        } in
        let (c'', calls, well'', _) = serves c' well' tt room in
        (c'', established_with conn_cb c k e new.not_cared runs ∙ calls, well'')

    handle_any_event-KeepsWell :
        (any_event_cb : Connection K → Exits (Connection K))
        → Serves os Room any_event_cb
        → (c : Connection K) → IsWell os c
        → IsLive c.status
        → Room c.in_buffer c.out_buffer
        → KeepsWell os (handle_any_event any_event_cb c)
    unfolding handle_any_event
    handle_any_event-KeepsWell any_event_cb serves c well l room =
        let (c', calls, well', _) = serves c well l room in
        (refresh_timer c', rw (calls, handle_any_event) refl, refresh_timer-IsWell c' well')

    read-KeepsWell :
        (mess_cb : Connection K → Exits (Connection K))
        → Serves os Room mess_cb
        → (c : Connection K) (received : Received) → IsWell os c
        → IsLive c.status
        → Fits Room received c
        → KeepsWell os (handle_read os mess_cb c received)
    unfolding handle_read
    read-KeepsWell mess_cb serves c recv_again well l room = (c, rw (open_status c.status l), well)
    read-KeepsWell mess_cb serves c recv_error well l room =
        rw (open_status c.status l, handle_read)
          (shut_down_in_loop-KeepsWell os laws Room mess_cb serves c well l room)
    read-KeepsWell mess_cb serves c recv_end well l room =
        rw (open_status c.status l, handle_read)
          (shut_down_in_loop-KeepsWell os laws Room mess_cb serves c well l room)
    read-KeepsWell mess_cb serves c (recv_bytes bytes) well l (fits, room) =
        read_bytes-KeepsWell os laws Room mess_cb serves c bytes well l fits room

    send-KeepsWell :
        (c : Connection K) (message : List ℕ)
        → IsWell os c
        → Allowed Room (call_send message) c
        → KeepsWell os (send_in_loop os c message)
    unfolding send_in_loop is_disconnected
    send-KeepsWell c message well (inl (l, more, room)) =
        let (c', runs, well', bytes, _) =
          send_in_loop-KeepsWell os laws c message well l more room in
        (c', runs, well')
    send-KeepsWell c message well (inr e) = (c, rw (e, send_in_loop) refl, well)

    -- Under callbacks that, where their buffers have the room that they need, return and leave an open
    -- connection in order, these calls on a connection in order return, by no failed assertion and no
    -- exit, and leave it in order: Established on a new connection; the read, close and any events of an
    -- open one; the write event while one is wanted, unless the send fails; Send of a message that is not
    -- empty, and fits, on an open connection, or of any on a released one; ShutDown on an open one;
    -- Release of an open or a released one; and the calls about its timer. In order means that the buffers
    -- are valid, the socket is open and watched exactly as the status says, and on an open connection the
    -- write event is wanted exactly while there is output to send.
    pub serve-KeepsWell :
        (cbs : Callbacks K)
        → Serves os Room cbs.conn_cb
        → Serves os Room cbs.mess_cb
        → Serves os Room cbs.any_event_cb
        → (call : Call) (c : Connection K) → IsWell os c
        → Allowed Room call c
        → KeepsWell os (serve os cbs call c)
    unfolding serve enable_inactive_release_in_loop cancel_inactive_release_in_loop
    serve-KeepsWell cbs conn mess any call_established c well (new, room) =
        established_in_loop-KeepsWell cbs.conn_cb conn c well new room
    serve-KeepsWell cbs conn mess any call_any c well (l, room) =
        handle_any_event-KeepsWell cbs.any_event_cb any c well l room
    serve-KeepsWell cbs conn mess any (call_read received) c well (l, fits) =
        read-KeepsWell cbs.mess_cb mess c received well l fits
    serve-KeepsWell cbs conn mess any (call_write sent) c well (l, on, ok) =
        handle_write-KeepsWell os laws Room cbs.mess_cb mess c sent well l on ok
    serve-KeepsWell cbs conn mess any call_close c well (l, room) =
        handle_close-KeepsWell os laws Room cbs.mess_cb mess c well l room
    serve-KeepsWell cbs conn mess any (call_send message) c well h = send-KeepsWell c message well h
    serve-KeepsWell cbs conn mess any call_shut_down c well (l, room) =
        shut_down_in_loop-KeepsWell os laws Room cbs.mess_cb mess c well l room
    serve-KeepsWell cbs conn mess any call_release c well h = (
      release_in_loop os c,
      refl,
      release_in_loop-IsWell os laws c (closable_cases os c.status c h well.fits) well.in_valid
          well.out_valid,
    )
    serve-KeepsWell cbs conn mess any (call_enable_release sec) c well h =
        (enable_inactive_release_in_loop c sec, refl, timed-IsWell c _ true well)
    serve-KeepsWell cbs conn mess any call_cancel_release c well h =
        (cancel_inactive_release_in_loop c, refl, timed-IsWell c _ false well)
