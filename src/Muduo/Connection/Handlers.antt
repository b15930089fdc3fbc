-- ===== src/Muduo/Connection/Handlers.antt =====
-- Every function of a connection that is in order leaves it in order.
use linux_os.Base.{
  ℕ, ◌+◌, ◌*◌, ◌<◌, ◌≡◌, ◌≢◌, ◌⊎◌, inl, inr, refl, ap, ◌∙◌, List, ◌++◌, some, true, false, arith,
  ltb, ◌==◌, Bool-cases, length, length-append, length-drop, word_size,
}
use linux_os.Muduo.Buffer.{Buffer, readable_size, write_and_push}
use linux_os.Muduo.Buffer.Laws.{IsValid, contents, readable_size-length}
use linux_os.Muduo.Buffer.Queue.{write_and_push-contents, read_and_pop-contents}
use linux_os.Muduo.Poll.{Epoll, EpollLaws, Exits, set_writeable}
use linux_os.Muduo.Connection.{
  Connection, ConnStatus, disconnected, connecting, connected, disconnecting, is_disconnected,
  is_disconnecting, recv_bytes, Sent, send_again, send_error, send_bytes, want_write,
  release_in_loop, send_in_loop, deliver, finish_output, shut_down_in_loop, handle_read,
  handle_close, stop_writing, handle_write,
}
use linux_os.Muduo.Connection.Laws.{
  IsWatched, IsWell, WantsOutput, IsLive, want_write-lem, disable_write_lem, keep_socket, fits_open,
  open_fits, closable_cases, release_in_loop-IsWell,
}

abbrev pub NoOutput : {K : Type 0} → Connection K → Type 0
NoOutput c = length (contents c.out_buffer) ≡ 0

-- Still open, or released with nothing left to send.
abbrev pub IsServed : {K : Type 0} → Connection K → Type 0
IsServed c = IsLive c.status ⊎ ((c.status ≡ disconnected) × NoOutput c)

pub open_status : (s : ConnStatus) → IsLive s → is_disconnected s ≡ false
unfolding is_disconnected
open_status disconnected l = absurd l
open_status connecting l = absurd l
open_status connected l = refl
open_status disconnecting l = refl

quiet_when_empty :
    {K : Type 0} (c : Connection K)
    → NoOutput c
    → (set_writeable c.channel false).events.writeable ≡ ltb 0 (length (contents c.out_buffer))
unfolding set_writeable
quiet_when_empty c nothing = ground (arith, nothing)

module _ {K : Type 0} (os : Epoll K) where
  -- What a callback promises: on an open connection that is in order, where its buffers have the room
  -- that the callback needs, it returns, and leaves it in order, open or released with nothing left to
  -- send.
  abbrev pub Serves : (Buffer → Buffer → Type 0) → (Connection K → Exits (Connection K)) → Type 0
  Serves Room cb =
      (c : Connection K)
      → IsWell os c
      → IsLive c.status
      → Room c.in_buffer c.out_buffer
      → (c' : Connection K) × (cb c ≡ some c') × IsWell os c' × IsServed c'

  -- The function returns, with the connection in order.
  abbrev pub KeepsWell : Exits (Connection K) → Type 0
  KeepsWell run = (c' : Connection K) × (run ≡ some c') × IsWell os c'

  module _ (laws : EpollLaws os) where
    -- With output that is not announced yet.
    want_write-IsWell :
        (c : Connection K)
        → IsLive c.status
        → IsWatched os c
        → IsValid c.in_buffer
        → IsValid c.out_buffer
        → 0 < length (contents c.out_buffer)
        → (c' : Connection K) × (want_write os c ≡ some c')
          × IsWell os c'
          × (c'.out_buffer ≡ c.out_buffer)
          × (c'.status ≡ c.status)
    want_write-IsWell c l w i o h =
        let (ch, p, runs, w', on) = want_write-lem os laws c w in
        let c' : Connection K = record c { channel = ch; poll = p } in
        let wants : WantsOutput c' = ground (arith, on, h) in
        (
          c',
          runs,
          record { in_valid = i; out_valid = o; fits = open_fits os c.status c' l (w', wants) },
          refl,
          refl,
        )

    pub send_in_loop-KeepsWell :
        (c : Connection K) (message : List ℕ)
        → IsWell os c
        → IsLive c.status
        → 0 < length message
        → length c.out_buffer.buffer * 2 + length message < word_size
        → (c' : Connection K) × (send_in_loop os c message ≡ some c')
          × IsWell os c'
          × (contents c'.out_buffer ≡ contents c.out_buffer ++ message)
          × (c'.status ≡ c.status)
    unfolding send_in_loop
    send_in_loop-KeepsWell c message well l more room =
        let (out, pushed, valid, bytes) =
          write_and_push-contents c.out_buffer message well.out_valid room in
        let c1 : Connection K = record c { out_buffer = out } in
        let (w, wants) = fits_open os c.status c l well.fits in
        let some_output : 0 < length (contents out) =
          omega (arith, ap length bytes, length-append (contents c.out_buffer) message, more) in
        let (c', runs, well', same, status) =
          want_write-IsWell c1 l (keep_socket os c c.in_buffer out c.status w) well.in_valid valid
            some_output in
        (c', rw (open_status c.status l, pushed) runs, well', ap contents same ∙ bytes, status)

    finish_with :
        (c c' : Connection K)
        → ltb 0 (readable_size c.out_buffer) ≡ true
        → want_write os c ≡ some c'
        → (readable_size c'.out_buffer == 0) ≡ false
        → finish_output os c ≡ some c'
    unfolding finish_output
    finish_with c c' more runs left = rw (more, runs, left, finish_output)

    finish_output-KeepsWell :
        (c : Connection K) → IsWell os c → IsServed c → KeepsWell (finish_output os c)
    unfolding finish_output
    finish_output-KeepsWell c well served =
        let size = readable_size-length c.out_buffer well.out_valid in
        elim (Bool-cases (ltb 0 (readable_size c.out_buffer))) [
          | inl more ↦ elim served [
            | inl l ↦
                let (w, wants) = fits_open os c.status c l well.fits in
                let (c', runs, well', same, _) =
                  want_write-IsWell c l w well.in_valid well.out_valid
                    (ground (arith, more, size)) in
                let left : (readable_size c'.out_buffer == 0) ≡ false =
                  ground (arith, ap readable_size same, more) in
                (c', finish_with c c' more runs left, well')
            | inr (gone, nothing) ↦ absurd (ground (arith, more, size, nothing))
          ]
          | inr nothing ↦
              let empty : (readable_size c.out_buffer == 0) ≡ true = ground (arith, nothing) in
              let closable : IsLive c.status ⊎ (c.status ≡ disconnected) = elim served [
                | inl l ↦ inl l
                | inr (gone, h) ↦ inr gone
              ] in
              (
                release_in_loop os c,
                rw (nothing, empty, finish_output),
                release_in_loop-IsWell os laws c (closable_cases os c.status c closable well.fits)
                    well.in_valid well.out_valid,
              )
        ]

    stop_writing-KeepsWell :
        (c : Connection K)
        → IsLive c.status
        → IsWatched os c
        → IsValid c.in_buffer
        → IsValid c.out_buffer
        → NoOutput c
        → KeepsWell (stop_writing os c)
    unfolding stop_writing
    stop_writing-KeepsWell c l w i o nothing =
        let size = readable_size-length c.out_buffer o in
        let empty : (readable_size c.out_buffer == 0) ≡ true = ground (arith, nothing, size) in
        let (p, runs, w') = disable_write_lem os laws c w in
        let c' : Connection K = record c { channel = set_writeable c.channel false; poll = p } in
        elim (Bool-cases (is_disconnecting c.status)) [
          | inl closing ↦ (
            release_in_loop os c',
            rw (empty, runs, closing),
            release_in_loop-IsWell os laws c' (inl w') i o,
          )
          | inr staying ↦ (
            c',
            rw (empty, runs, staying),
            record {
              in_valid = i;
              out_valid = o;
              fits = open_fits os c.status c' l (w', quiet_when_empty c nothing);
            },
          )
        ]

    module _ (Room : Buffer → Buffer → Type 0) (mess_cb : Connection K → Exits (Connection K))
        (serves : Serves Room mess_cb) where
      deliver-IsServed :
          (c : Connection K)
          → IsWell os c
          → IsLive c.status
          → Room c.in_buffer c.out_buffer
          → (c' : Connection K) × (deliver os mess_cb c ≡ some c') × IsWell os c' × IsServed c'
      unfolding deliver
      deliver-IsServed c well l room = elim (Bool-cases (ltb 0 (readable_size c.in_buffer))) [
        | inl e ↦
            let (c', runs, well', served) = serves c well l room in (c', rw (e) runs, well', served)
        | inr e ↦ (c, rw e, well, inl l)
      ]

      pub shut_down_in_loop-KeepsWell :
          (c : Connection K)
          → IsWell os c
          → IsLive c.status
          → Room c.in_buffer c.out_buffer
          → KeepsWell (shut_down_in_loop os mess_cb c)
      unfolding shut_down_in_loop
      shut_down_in_loop-KeepsWell c well l room =
          let c1 : Connection K = record c { status = disconnecting } in
          let (w, wants) = fits_open os c.status c l well.fits in
          let well1 : IsWell os c1 = record {
            in_valid = well.in_valid;
            out_valid = well.out_valid;
            fits = (keep_socket os c c.in_buffer c.out_buffer disconnecting w, wants);
          } in
          let (c', runs, well', served) = deliver-IsServed c1 well1 tt room in
          rw (runs, shut_down_in_loop) (finish_output-KeepsWell c' well' served)

      pub handle_close-KeepsWell :
          (c : Connection K)
          → IsWell os c
          → IsLive c.status
          → Room c.in_buffer c.out_buffer
          → KeepsWell (handle_close os mess_cb c)
      unfolding handle_close
      handle_close-KeepsWell c well l room =
          let (c', runs, well', served) = deliver-IsServed c well l room in
          let closable : IsLive c'.status ⊎ (c'.status ≡ disconnected) = elim served [
            | inl l' ↦ inl l'
            | inr (gone, h) ↦ inr gone
          ] in
          rw (runs, handle_close)
            (
              release_in_loop os c',
              refl,
              release_in_loop-IsWell os laws c' (closable_cases os c'.status c' closable well'.fits)
                  well'.in_valid well'.out_valid,
            )

      -- Bytes have come for an open connection.
      pub read_bytes-KeepsWell :
          (c : Connection K) (bytes : List ℕ)
          → IsWell os c
          → IsLive c.status
          → length c.in_buffer.buffer * 2 + length bytes < word_size
          → ((b : Buffer) → write_and_push c.in_buffer bytes ≡ some b → Room b c.out_buffer)
          → KeepsWell (handle_read os mess_cb c (recv_bytes bytes))
      unfolding handle_read
      read_bytes-KeepsWell c bytes well l fits room =
          let (b, pushed, valid, same) =
            write_and_push-contents c.in_buffer bytes well.in_valid fits in
          let c1 : Connection K = record c { in_buffer = b } in
          let (w, wants) = fits_open os c.status c l well.fits in
          let well1 : IsWell os c1 = record {
            in_valid = valid;
            out_valid = well.out_valid;
            fits = open_fits os c.status c1 l (keep_socket os c b c.out_buffer c.status w, wants);
          } in
          let (c', runs, well', served) = deliver-IsServed c1 well1 l (room b pushed) in
          (c', rw (open_status c.status l, pushed) runs, well')

      pub handle_write-KeepsWell :
          (c : Connection K) (sent : Sent)
          → IsWell os c
          → IsLive c.status
          → c.channel.events.writeable ≡ true
          → sent ≢ send_error
          → KeepsWell (handle_write os mess_cb c sent)
      unfolding handle_write
      handle_write-KeepsWell c sent well l on ok =
          let size = readable_size-length c.out_buffer well.out_valid in
          let (w, wants) = fits_open os c.status c l well.fits in
          let more : 0 < readable_size c.out_buffer = ground (arith, wants, on, size) in
          let (out, taken, valid, rest) =
            read_and_pop-contents c.out_buffer (readable_size c.out_buffer) well.out_valid more
              (omega (arith, size)) in
          let c1 : Connection K = record c { out_buffer = out } in
          let nothing : NoOutput c1 = omega (
            arith,
            ap length rest,
            size,
            length-drop (readable_size c.out_buffer) (contents c.out_buffer),
          ) in
          let kept =
            stop_writing-KeepsWell c1 l (keep_socket os c c.in_buffer out c.status w) well.in_valid
              valid nothing in
          elim sent as (λ s. s ≢ send_error → KeepsWell (handle_write os mess_cb c s)) [
            | send_again ↦ λ h. rw (taken, handle_write) kept
            | send_error ↦ λ h. absurd (h refl)
            | send_bytes n ↦ λ h. rw (taken, handle_write) kept
          ]
            ok
