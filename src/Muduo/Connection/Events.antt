-- ===== src/Muduo/Connection/Events.antt =====
-- The calls that reach a connection, from the loop's events (Channel::HandleEvents), from its timer and
-- from the tasks of the loop.
pub mod Order
use linux_os.Base.{
  ℕ, ◌+◌, ◌*◌, ◌<◌, ◌≡◌, ◌≢◌, ◌⊎◌, List, Option, none, some, Bool, true, length, word_size,
}
use linux_os.Muduo.Buffer.{Buffer, write_and_push}
use linux_os.Muduo.Poll.{Epoll, Exits}
use linux_os.Muduo.Connection.{
  Connection, ConnStatus, disconnected, connecting, Received, recv_again, recv_error, recv_end,
  recv_bytes, Sent, send_error, established_in_loop, send_in_loop, shut_down_in_loop,
  release_in_loop, enable_inactive_release_in_loop, cancel_inactive_release_in_loop,
  handle_any_event, handle_read, handle_write, handle_close,
}
use linux_os.Muduo.Connection.Laws.{IsLive}

pub data Call : Type 0 where
  call_established : Call
  call_any : Call
  call_read : Received → Call
  call_write : Sent → Call
  call_close : Call
  call_send : List ℕ → Call
  call_shut_down : Call
  call_release : Call
  call_enable_release : ℕ → Call
  call_cancel_release : Call

-- _conn_cb, _mess_cb and _any_event_cb.
pub record Callbacks (K : Type 0) : Type 0 where
  pub conn_cb : Connection K → Exits (Connection K)
  pub mess_cb : Connection K → Exits (Connection K)
  pub any_event_cb : Connection K → Exits (Connection K)

unfoldable pub serve :
    {K : Type 0} → Epoll K → Callbacks K → Call → Connection K → Exits (Connection K)
unfolding established_in_loop handle_any_event handle_read handle_write handle_close send_in_loop
    shut_down_in_loop release_in_loop enable_inactive_release_in_loop
    cancel_inactive_release_in_loop
serve os cbs call_established c = established_in_loop os cbs.conn_cb c
serve os cbs call_any c = handle_any_event cbs.any_event_cb c
serve os cbs (call_read received) c = handle_read os cbs.mess_cb c received
serve os cbs (call_write sent) c = handle_write os cbs.mess_cb c sent
serve os cbs call_close c = handle_close os cbs.mess_cb c
serve os cbs (call_send message) c = send_in_loop os c message
serve os cbs call_shut_down c = shut_down_in_loop os cbs.mess_cb c
serve os cbs call_release c = some (release_in_loop os c)
serve os cbs (call_enable_release sec) c = some (enable_inactive_release_in_loop c sec)
serve os cbs call_cancel_release c = some (cancel_inactive_release_in_loop c)

-- The bytes that came fit in a buffer whose size is no overflow, and leave the message callback room.
abbrev pub Fits : {K : Type 0} → (Buffer → Buffer → Type 0) → Received → Connection K → Type 0
Fits Room recv_again c = Unit {0}
Fits Room recv_error c = Room c.in_buffer c.out_buffer
Fits Room recv_end c = Room c.in_buffer c.out_buffer
Fits Room (recv_bytes bytes) c =
    (length c.in_buffer.buffer * 2 + length bytes < word_size)
    × ((b : Buffer) → write_and_push c.in_buffer bytes ≡ some b → Room b c.out_buffer)

-- The calls that are looked at: Established on a new connection, the events of an open one, a write event
-- only while one is wanted and without a send that fails, no empty message, and ShutDown only on an open
-- connection. Where a callback is called, its buffers have the room that it needs.
abbrev pub Allowed : {K : Type 0} → (Buffer → Buffer → Type 0) → Call → Connection K → Type 0
Allowed Room call_established c = (c.status ≡ connecting) × Room c.in_buffer c.out_buffer
Allowed Room call_any c = IsLive c.status × Room c.in_buffer c.out_buffer
Allowed Room (call_read received) c = IsLive c.status × Fits Room received c
Allowed Room (call_write sent) c =
    IsLive c.status × (c.channel.events.writeable ≡ true) × (sent ≢ send_error)
Allowed Room call_close c = IsLive c.status × Room c.in_buffer c.out_buffer
Allowed Room (call_send message) c =
    (IsLive c.status
      × (0 < length message)
      × (length c.out_buffer.buffer * 2 + length message < word_size))
    ⊎ (c.status ≡ disconnected)
Allowed Room call_shut_down c = IsLive c.status × Room c.in_buffer c.out_buffer
Allowed Room call_release c = IsLive c.status ⊎ (c.status ≡ disconnected)
Allowed Room (call_enable_release sec) c = Unit {0}
Allowed Room call_cancel_release c = Unit {0}
