-- ===== src/Muduo/Connection/Failures.antt =====
-- Calls that end the whole process.
use linux_os.Base.{
  ◌<◌, ◌≡◌, inl, refl, ap, none, some, true, false, arith, ltb, ◌==◌, length, length-drop,
}
use linux_os.Muduo.Buffer.{readable_size}
use linux_os.Muduo.Buffer.Laws.{contents, readable_size-length}
use linux_os.Muduo.Buffer.Queue.{read_and_pop-contents}
use linux_os.Muduo.Poll.{
  Epoll, EpollLaws, Channel, Exits, enable_write, disable_write, remove, with_update, update_event,
  set_writeable,
}
use linux_os.Muduo.Connection.{
  Connection, disconnecting, send_error, want_write, release_in_loop,
  cancel_inactive_release_in_loop, detach, close_socket, stop_timer, deliver, finish_output,
  shut_down_in_loop, handle_close, stop_writing, handle_write,
}
use linux_os.Muduo.Connection.Laws.{
  IsGone, IsWell, IsLive, keep_socket, fits_open, release_in_loop-IsGone, release_in_loop-rest,
}

module _ {K : Type 0} (os : Epoll K) (laws : EpollLaws os) where
  -- The poll takes a change of events on a gone connection for a new descriptor, which is closed.
  with_update_closed :
      (c : Connection K) (ch : Channel)
      → ch.fd ≡ c.channel.fd
      → IsGone os c
      → with_update os c.poll ch ≡ none
  unfolding with_update update_event
  with_update_closed c ch same g =
      let out : c.poll.care_fd ch.fd ≡ false = rw same g.not_cared in
      let refused = laws.add_closed c.poll.kernel ch.fd ch.events (rw same g.closed_fd) in
      rw (out, with_update, update_event, refused)

  stop_writing_closed :
      (c : Connection K)
      → IsGone os c
      → (readable_size c.out_buffer == 0) ≡ true
      → stop_writing os c ≡ none
  unfolding stop_writing disable_write set_writeable
  stop_writing_closed c g empty =
      let refused = with_update_closed c (set_writeable c.channel false) refl g in
      rw (empty, refused)

  want_write_closed :
      (c : Connection K) → IsGone os c → c.channel.events.writeable ≡ false → want_write os c ≡ none
  unfolding want_write enable_write set_writeable
  want_write_closed c g off =
      let refused = with_update_closed c (set_writeable c.channel true) refl g in rw (off, refused)

  release_in_loop-quiet :
      (c : Connection K) → (release_in_loop os c).channel.events.writeable ≡ false
  unfolding release_in_loop stop_timer cancel_inactive_release_in_loop close_socket detach remove
  release_in_loop-quiet c = ground arith

  module _ (mess_cb : Connection K → Exits (Connection K)) where
    handle_close-quiet :
        (c : Connection K)
        → ltb 0 (readable_size c.in_buffer) ≡ false
        → handle_close os mess_cb c ≡ some (release_in_loop os c)
    unfolding handle_close deliver
    handle_close-quiet c quiet = rw (quiet, handle_close)

    -- A send that fails, on an open connection in order that has output and no input, ends the
    -- process: after the release the write event is disabled on a descriptor that is closed.
    pub handle_write-exits :
        (c : Connection K)
        → IsWell os c
        → IsLive c.status
        → c.channel.events.writeable ≡ true
        → length (contents c.in_buffer) ≡ 0
        → handle_write os mess_cb c send_error ≡ none
    unfolding handle_write
    handle_write-exits c well l on quiet =
        let size = readable_size-length c.out_buffer well.out_valid in
        let (w, wants) = fits_open os c.status c l well.fits in
        let more : 0 < readable_size c.out_buffer = ground (arith, wants, on, size) in
        let (out, taken, valid, rest) =
          read_and_pop-contents c.out_buffer (readable_size c.out_buffer) well.out_valid more
            (omega (arith, size)) in
        let c1 : Connection K = record c { out_buffer = out } in
        let nothing : readable_size out ≡ 0 = omega (
          arith,
          ap length rest,
          size,
          readable_size-length out valid,
          length-drop (readable_size c.out_buffer) (contents c.out_buffer),
        ) in
        let closes =
          handle_close-quiet c1
            (ground (arith, readable_size-length c.in_buffer well.in_valid, quiet)) in
        let (status, same_in, same_out) = release_in_loop-rest os c1 in
        let left : (readable_size (release_in_loop os c1).out_buffer == 0) ≡ true =
          ground (arith, ap readable_size same_out, nothing) in
        let gone =
          release_in_loop-IsGone os laws c1 (inl (keep_socket os c c.in_buffer out c.status w)) in
        rw (taken, handle_write, closes) (stop_writing_closed (release_in_loop os c1) gone left)

    -- ShutDown on a connection that was released with output left and no input does too: it wants
    -- the write event on the closed descriptor.
    pub shut_down_in_loop-exits :
        (c : Connection K)
        → IsWell os c
        → IsLive c.status
        → length (contents c.in_buffer) ≡ 0
        → 0 < length (contents c.out_buffer)
        → shut_down_in_loop os mess_cb (release_in_loop os c) ≡ none
    unfolding shut_down_in_loop deliver finish_output
    shut_down_in_loop-exits c well l quiet more =
        let (w, wants) = fits_open os c.status c l well.fits in
        let (status, same_in, same_out) = release_in_loop-rest os c in
        let g = release_in_loop-IsGone os laws c (inl w) in
        let d : Connection K = record (release_in_loop os c) { status = disconnecting } in
        let gone : IsGone os d = record {
          socket = g.socket;
          closed_fd = g.closed_fd;
          not_cared = g.not_cared;
        } in
        let no_input : ltb 0 (readable_size (release_in_loop os c).in_buffer) ≡ false = ground (
          arith,
          ap readable_size same_in,
          readable_size-length c.in_buffer well.in_valid,
          quiet,
        ) in
        let output : ltb 0 (readable_size (release_in_loop os c).out_buffer) ≡ true = ground (
          arith,
          ap readable_size same_out,
          readable_size-length c.out_buffer well.out_valid,
          more,
        ) in
        rw (
          shut_down_in_loop,
          deliver,
          no_input,
          finish_output,
          output,
          want_write_closed d gone (release_in_loop-quiet c),
        )
