-- ===== src/Muduo.antt =====
-- muduo: the reactor library of muduo/server.hpp and the HTTP server on it.
pub mod Buffer
pub mod Http
pub mod TimerWheel
pub mod Connection
pub mod Poll
pub mod EventLoop
pub mod LoopThreadPool
pub mod TcpServer
