-- ===== src/Muduo/TcpServer.antt =====
-- muduo/server.hpp, class TcpServer: the connections that it holds, by their ids. A connection is its
-- descriptor. Established calls the server's callback for a new connection, which may close it at
-- once; in the thread of the main loop RemoveFromServer then runs before AcceptCallback goes on. The
-- ids are taken to stay below the largest `int`.
mod Tests
use linux_os.Base.{
  ℕ, suc, ◌+◌, ◌<◌, ◌≤◌, ◌≡◌, ◌≢◌, Option, none, some, Bool, true, false, arith, ◌==◌,
  if◌then◌else◌, update,
}
use linux_os.Muduo.LoopThreadPool.{LoopThreadPool, get_next_loop_thread}

pub record TcpServer (A : Type 0) : Type 0 where
  pub conns : ℕ → Option ℕ
  pub pool : LoopThreadPool A
  pub conn_id : ℕ
  pub timer_id : ℕ

unfoldable pub remove_from_server : {A : Type 0} → TcpServer A → ℕ → TcpServer A
unfolding update
remove_from_server s id = record s { conns = update s.conns id none }

unfoldable pub accept_callback : {A : Type 0} → TcpServer A → ℕ → Bool → TcpServer A
unfolding remove_from_server get_next_loop_thread update
accept_callback {A} s io_fd closed_at_once =
    let opened : TcpServer A = record s {
      conn_id = suc s.conn_id;
      timer_id = suc s.timer_id;
      pool = (get_next_loop_thread s.pool).1;
    } in
    let established =
      (if closed_at_once then remove_from_server opened opened.conn_id else opened) in
    record established { conns = update established.conns opened.conn_id (some io_fd) }

-- No connection has an id that is still to come.
pub record IsNumbered {A : Type 0} (s : TcpServer A) : Type 0 where
  pub unused : (id : ℕ) → s.conn_id < id → s.conns id ≡ none

module _ {A : Type 0} (s : TcpServer A) where
  -- AcceptCallback gives a connection an id that no other has and holds it under that id, also where
  -- the connection was closed before it returned; the other connections stay.
  pub accept_callback-conns :
      (io_fd : ℕ) (closed_at_once : Bool)
      → IsNumbered s
      → IsNumbered (accept_callback s io_fd closed_at_once)
        × (s.conns (suc s.conn_id) ≡ none)
        × ((id : ℕ)
            → (accept_callback s io_fd closed_at_once).conns id
              ≡ (if id == suc s.conn_id then some io_fd else s.conns id))
  unfolding accept_callback remove_from_server update
  accept_callback-conns io_fd true n = (
    record { unused = λ id h. ground (arith, h, n.unused id) },
    n.unused _ (omega arith),
    λ id. ground arith,
  )
  accept_callback-conns io_fd false n = (
    record { unused = λ id h. ground (arith, h, n.unused id) },
    n.unused _ (omega arith),
    λ id. ground arith,
  )

  -- RemoveFromServer takes out the connection of one id and no other.
  pub conns-remove_from_server :
      (id j : ℕ) → (remove_from_server s id).conns j ≡ (if j == id then none else s.conns j)
  unfolding remove_from_server update
  conns-remove_from_server id j = ground arith
