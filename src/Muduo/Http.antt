-- ===== src/Muduo/Http.antt =====
-- The HTTP server of muduo/http/httpserver.hpp. Texts are lists of bytes.
pub mod Paths
pub mod UrlCode
pub mod Message
pub mod Parse
pub mod Context
pub mod Tables
pub mod Response
pub mod Server
pub mod Session
