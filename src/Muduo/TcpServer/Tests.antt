-- ===== src/Muduo/TcpServer/Tests.antt =====
-- A server without connections, on its main loop alone.
use linux_os.Base.{ℕ, suc, ◌≡◌, refl, none, some, true, ◌==◌, if◌then◌else◌}
use linux_os.Muduo.LoopThreadPool.{new_pool}
use linux_os.Muduo.TcpServer.{TcpServer, IsNumbered, accept_callback, accept_callback-conns}

abbrev idle_server : TcpServer ℕ
idle_server = record { conns = λ id. none; pool = new_pool 0; conn_id = 0; timer_id = 0 }

accept_callback-conns_example :
    IsNumbered (accept_callback idle_server 7 true)
    × (idle_server.conns (suc idle_server.conn_id) ≡ none)
    × ((id : ℕ)
        → (accept_callback idle_server 7 true).conns id
          ≡ (if id == suc idle_server.conn_id then some 7 else idle_server.conns id))
accept_callback-conns_example =
    accept_callback-conns idle_server 7 true record { unused = λ id h. refl }
