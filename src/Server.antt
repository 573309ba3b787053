-- ===== src/Server.antt =====
-- The package novagate: connection limits, the router, the connection handler, the listener.
pub mod Context
pub mod Router
pub mod Registry
pub mod Wire
pub mod Handle
pub mod Conn
pub mod Listen
pub mod Program
pub mod Tests
