-- ===== src/Muduo/Connection.antt =====
-- muduo/server.hpp, class Connection, as its functions run in the thread of its loop. Of the loop it
-- keeps the poll and the timer wheel. What the socket answers is an argument; the callbacks of the
-- server for a new connection, a message and any event are parameters, on the whole connection, since
-- they may call Send and ShutDown. A callback that is not set is `some`.
-- `closings` counts the calls of the callbacks for a closed connection.
pub mod Laws
pub mod Handlers
pub mod Failures
pub mod Events
mod Tests
use linux_os.Base.{
  ℕ, zero, suc, ◌+◌, List, [], ◌∷◌, Option, none, some, Bool, true, false, ltb, ◌==◌, if◌then◌else◌,
}
use linux_os.Muduo.Buffer.{Buffer, new_buffer, readable_size, write_and_push, read_and_pop}
use linux_os.Muduo.TimerWheel.{
  TimerWheel, if_exists, set_timer_task, refresh_timer_task, remove_timer_task,
}
use linux_os.Muduo.Poll.{
  Epoll, Poll, Channel, Exits, new_channel, enable_read, enable_write, disable_write, remove,
}

pub data ConnStatus : Type 0 where
  disconnected : ConnStatus
  connecting : ConnStatus
  connected : ConnStatus
  disconnecting : ConnStatus

pub record Connection (K : Type 0) : Type 0 where
  pub timer_id : ℕ
  pub enable_inactive_release : Bool
  pub poll : Poll K
  pub wheel : TimerWheel
  pub has_socket : Bool
  pub channel : Channel
  pub in_buffer : Buffer
  pub out_buffer : Buffer
  pub status : ConnStatus
  pub closings : ℕ

-- RecvNonBlock gives -2, -1, 0 or the bytes; SendNonBlock gives -2, -1 or how many bytes went.
pub data Received : Type 0 where
  recv_again : Received
  recv_error : Received
  recv_end : Received
  recv_bytes : List ℕ → Received

pub data Sent : Type 0 where
  send_again : Sent
  send_error : Sent
  send_bytes : ℕ → Sent

unfoldable pub is_disconnected : ConnStatus → Bool
is_disconnected disconnected = true
is_disconnected connecting = false
is_disconnected connected = false
is_disconnected disconnecting = false

unfoldable pub is_connecting : ConnStatus → Bool
is_connecting disconnected = false
is_connecting connecting = true
is_connecting connected = false
is_connecting disconnecting = false

unfoldable pub is_disconnecting : ConnStatus → Bool
is_disconnecting disconnected = false
is_disconnecting connecting = false
is_disconnecting connected = false
is_disconnecting disconnecting = true

unfoldable pub new_connection : {K : Type 0} → ℕ → ℕ → Poll K → TimerWheel → Connection K
unfolding new_channel
new_connection timer_id sockfd poll wheel = record {
  timer_id = timer_id;
  enable_inactive_release = false;
  poll = poll;
  wheel = wheel;
  has_socket = ltb 0 sockfd;
  channel = new_channel sockfd;
  in_buffer = new_buffer;
  out_buffer = new_buffer;
  status = connecting;
  closings = 0;
}

unfoldable pub enable_inactive_release_in_loop : {K : Type 0} → Connection K → ℕ → Connection K
unfolding if_exists refresh_timer_task set_timer_task
enable_inactive_release_in_loop c sec = record c {
  enable_inactive_release = true;
  wheel =
      if if_exists c.wheel c.timer_id
      then refresh_timer_task c.wheel c.timer_id
      else set_timer_task c.wheel c.timer_id sec;
}

unfoldable pub cancel_inactive_release_in_loop : {K : Type 0} → Connection K → Connection K
unfolding if_exists remove_timer_task
cancel_inactive_release_in_loop c = record c {
  enable_inactive_release = false;
  wheel = if if_exists c.wheel c.timer_id then remove_timer_task c.wheel c.timer_id else c.wheel;
}

-- `if (_loop->IfExistTimerTask(_timer_id)) CancelInactiveReleaseInLoop();`
unfoldable pub stop_timer : {K : Type 0} → Connection K → Connection K
unfolding if_exists cancel_inactive_release_in_loop
stop_timer c = if if_exists c.wheel c.timer_id then cancel_inactive_release_in_loop c else c

-- `if (_enable_inactive_release) _loop->RefreshTimerTask(_timer_id);`
unfoldable pub refresh_timer : {K : Type 0} → Connection K → Connection K
unfolding refresh_timer_task
refresh_timer c =
    if c.enable_inactive_release
    then (record c { wheel = refresh_timer_task c.wheel c.timer_id })
    else c

unfoldable pub handle_any_event :
    {K : Type 0} → (Connection K → Exits (Connection K)) → Connection K → Exits (Connection K)
unfolding refresh_timer
handle_any_event any_event_cb c = elim (any_event_cb c) [
  | none ↦ none
  | some c' ↦ some (refresh_timer c')
]

module _ {K : Type 0} (os : Epoll K) where
  unfoldable pub established_in_loop :
      (Connection K → Exits (Connection K)) → Connection K → Exits (Connection K)
  unfolding is_connecting enable_read
  established_in_loop conn_cb c =
      if is_connecting c.status
      then elim (enable_read os c.channel c.poll) [
        | none ↦ none
        | some (ch, p) ↦ conn_cb (record c { status = connected; channel = ch; poll = p })
      ]
      else none

  -- Socket::Close
  unfoldable pub close_socket : Connection K → Connection K
  close_socket c =
      if c.has_socket
      then (record c {
        has_socket = false;
        poll = record c.poll { kernel = os.close_fd c.poll.kernel c.channel.fd };
      })
      else c

  unfoldable pub detach : Connection K → Connection K
  unfolding remove
  detach c =
      let (ch, p) = remove os c.channel c.poll in
      record c { status = disconnected; channel = ch; poll = p }

  unfoldable pub release_in_loop : Connection K → Connection K
  unfolding detach close_socket stop_timer
  release_in_loop c =
      let quiet = stop_timer (close_socket (detach c)) in
      record quiet { closings = suc quiet.closings }

  -- `if (!_channel.Writeable()) _channel.EnableWrite();`
  unfoldable pub want_write : Connection K → Exits (Connection K)
  unfolding enable_write
  want_write c =
      if c.channel.events.writeable then some c else elim (enable_write os c.channel c.poll) [
        | none ↦ none
        | some (ch, p) ↦ some (record c { channel = ch; poll = p })
      ]

  unfoldable pub send_in_loop : Connection K → List ℕ → Exits (Connection K)
  unfolding is_disconnected write_and_push want_write
  send_in_loop c message =
      if is_disconnected c.status then some c else elim (write_and_push c.out_buffer message) [
        | none ↦ none
        | some out ↦ want_write (record c { out_buffer = out })
      ]

  -- What ShutDownInLoop does after the callback: it sends what is left, or releases.
  unfoldable pub finish_output : Connection K → Exits (Connection K)
  unfolding readable_size want_write release_in_loop
  finish_output c =
      let wanted = (if ltb 0 (readable_size c.out_buffer) then want_write c else some c) in
      elim wanted [
        | none ↦ none
        | some c' ↦ if readable_size c'.out_buffer == 0 then some (release_in_loop c') else some c'
      ]

  -- The end of HandleWrite.
  unfoldable pub stop_writing : Connection K → Exits (Connection K)
  unfolding readable_size disable_write is_disconnecting release_in_loop
  stop_writing c =
      if readable_size c.out_buffer == 0
      then elim (disable_write os c.channel c.poll) [
        | none ↦ none
        | some (ch, p) ↦
            let c' : Connection K = record c { channel = ch; poll = p } in
            some (if is_disconnecting c'.status then release_in_loop c' else c')
      ]
      else some c

  module _ (mess_cb : Connection K → Exits (Connection K)) where
    -- `if (_in_buffer.ReadableSize() > 0) if (_mess_cb) _mess_cb(…)`
    unfoldable pub deliver : Connection K → Exits (Connection K)
    unfolding readable_size
    deliver c = if ltb 0 (readable_size c.in_buffer) then mess_cb c else some c

    unfoldable pub shut_down_in_loop : Connection K → Exits (Connection K)
    unfolding deliver finish_output
    shut_down_in_loop c = elim (deliver (record c { status = disconnecting })) [
      | none ↦ none
      | some c' ↦ finish_output c'
    ]

    unfoldable pub handle_read : Connection K → Received → Exits (Connection K)
    unfolding is_disconnected shut_down_in_loop write_and_push deliver
    handle_read c received = if is_disconnected c.status then some c else elim received [
      | recv_again ↦ some c
      | recv_error ↦ shut_down_in_loop c
      | recv_end ↦ shut_down_in_loop c
      | recv_bytes bytes ↦ elim (write_and_push c.in_buffer bytes) [
        | none ↦ none
        | some in_buffer ↦ deliver (record c { in_buffer = in_buffer })
      ]
    ]

    unfoldable pub handle_close : Connection K → Exits (Connection K)
    unfolding deliver release_in_loop
    handle_close c = elim (deliver c) [ none ↦ none | some c' ↦ some (release_in_loop c') ]

    -- The whole output is taken out of the buffer, whatever part of it is sent.
    unfoldable pub handle_write : Connection K → Sent → Exits (Connection K)
    unfolding read_and_pop readable_size handle_close stop_writing
    handle_write c sent = elim (read_and_pop c.out_buffer (readable_size c.out_buffer)) [
      | none ↦ none
      | some (str, out) ↦
          let c' : Connection K = record c { out_buffer = out } in
          elim sent [
            | send_error ↦ elim (handle_close c') [ none ↦ none | some c'' ↦ stop_writing c'' ]
            | send_again ↦ stop_writing c'
            | send_bytes n ↦ stop_writing c'
          ]
    ]
