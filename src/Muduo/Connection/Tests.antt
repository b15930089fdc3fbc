-- ===== src/Muduo/Connection/Tests.antt =====
-- A small epoll for which the laws hold, and the theorems on a connection with it.
use linux_os.Base.{
  ℕ, ◌+◌, ◌*◌, ◌<◌, ◌≡◌, sym, subst, length, word_size, refl, inl, [], ◌∷◌, Option, none, some,
  Bool, true, false, not, ◌&&◌, ◌==◌, arith, if◌then◌else◌, update,
}
use linux_os.Muduo.Buffer.{Buffer}
use linux_os.Muduo.TimerWheel.{new_wheel}
use linux_os.Muduo.Poll.{Epoll, EpollLaws, Events, CtlOp, ctl_add, ctl_mod, ctl_del, Exits}
use linux_os.Muduo.Connection.{
  Connection, connected, send_error, recv_bytes, send_in_loop, handle_write, shut_down_in_loop,
  release_in_loop,
}
use linux_os.Muduo.Connection.Laws.{IsWell, IsLive}
use linux_os.Muduo.Connection.Handlers.{Serves, KeepsWell, send_in_loop-KeepsWell}
use linux_os.Muduo.Connection.Events.{Callbacks, call_read, serve}
use linux_os.Muduo.Connection.Events.Order.{serve-KeepsWell}
use linux_os.Muduo.Connection.Failures.{handle_write-exits, shut_down_in_loop-exits}

record Kernel : Type 0 where
  opened : ℕ → Bool
  watching : ℕ → Bool

small_ctl : Kernel → CtlOp → ℕ → Events → Option Kernel
unfolding update
small_ctl k ctl_add fd ev =
    if k.opened fd && not (k.watching fd)
    then some (record k { watching = update k.watching fd true })
    else none
small_ctl k ctl_mod fd ev = if k.opened fd && k.watching fd then some k else none
small_ctl k ctl_del fd ev =
    if k.watching fd then some (record k { watching = update k.watching fd false }) else none

abbrev small_epoll : Epoll Kernel
small_epoll = record {
  is_open = λ k fd. k.opened fd;
  is_watched = λ k fd. k.watching fd;
  epoll_ctl = small_ctl;
  close_fd =
      λ k fd. record { opened = update k.opened fd false; watching = update k.watching fd false };
}

small_epoll-EpollLaws : EpollLaws small_epoll
unfolding small_ctl update
small_epoll-EpollLaws = record {
  add_open = λ k fd ev h h'.
      (record k { watching = update k.watching fd true }, ground (arith, h, h'), h, ground arith);
  add_closed = λ k fd ev h. ground (arith, h);
  mod_watched = λ k fd ev h h'. (k, ground (arith, h, h'), h, h');
  del_watched = λ k fd ev h h'.
      (record k { watching = update k.watching fd false }, ground (arith, h'), h, ground arith);
  close_open = λ k fd. (ground arith, ground arith);
}

-- Descriptor 5 is open and watched, with two bytes to send.
abbrev sending : Connection Kernel
sending = record {
  timer_id = 1;
  enable_inactive_release = false;
  poll = record {
    kernel = record { opened = λ fd. fd == 5; watching = λ fd. fd == 5 };
    care_fd = λ fd. fd == 5;
  };
  wheel = new_wheel;
  has_socket = true;
  channel = record { fd = 5; events = record { readable = true; writeable = true } };
  in_buffer = record { buffer = 0 ∷ 0 ∷ []; write_idx = 0; read_idx = 0 };
  out_buffer = record { buffer = 7 ∷ 8 ∷ 0 ∷ []; write_idx = 2; read_idx = 0 };
  status = connected;
  closings = 0;
}

sending-IsWell : IsWell small_epoll sending
sending-IsWell = record {
  in_valid = record { ordered = omega arith; inside = omega arith; small = omega arith };
  out_valid = record { ordered = omega arith; inside = omega arith; small = omega arith };
  fits = (record { socket = refl; open_fd = refl; cared = refl; watched = refl }, refl);
}

abbrev idle : Connection Kernel → Exits (Connection Kernel)
idle c = some c

-- A message callback that answers every message with three bytes.
abbrev answering : Connection Kernel → Exits (Connection Kernel)
answering c = send_in_loop small_epoll c (1 ∷ 2 ∷ 3 ∷ [])

abbrev RoomForThree : Buffer → Buffer → Type 0
RoomForThree i o = length o.buffer * 2 + 3 < word_size

answering-Serves : Serves small_epoll RoomForThree answering
answering-Serves c well l room =
    let (c', runs, well', _, status) =
      send_in_loop-KeepsWell small_epoll small_epoll-EpollLaws c (1 ∷ 2 ∷ 3 ∷ []) well l
        (omega arith) room in
    (c', runs, well', inl (subst IsLive (sym status) l))

idle-Serves : Serves small_epoll RoomForThree idle
idle-Serves c well l room = (c, refl, well, inl l)

abbrev answers : Callbacks Kernel
answers = record { conn_cb = idle; mess_cb = answering; any_event_cb = idle }

serve-KeepsWell_example :
    KeepsWell small_epoll (serve small_epoll answers (call_read (recv_bytes (9 ∷ []))) sending)
serve-KeepsWell_example =
    serve-KeepsWell small_epoll small_epoll-EpollLaws RoomForThree answers idle-Serves
      answering-Serves idle-Serves (call_read (recv_bytes (9 ∷ []))) sending sending-IsWell
      (tt, (omega arith, λ b e. omega arith))

handle_write-exits_example : handle_write small_epoll idle sending send_error ≡ none
handle_write-exits_example =
    handle_write-exits small_epoll small_epoll-EpollLaws idle sending sending-IsWell tt refl refl

shut_down_in_loop-exits_example :
    shut_down_in_loop small_epoll idle (release_in_loop small_epoll sending) ≡ none
shut_down_in_loop-exits_example =
    shut_down_in_loop-exits small_epoll small_epoll-EpollLaws idle sending sending-IsWell tt refl
      (omega arith)
