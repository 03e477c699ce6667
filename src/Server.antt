-- ===== src/Server.antt =====
-- main.go: the server. Server/Tick is broadcastLoop, over the components of the other files.
pub mod Tick
pub mod Auth
pub mod Listen
pub mod Restart
pub mod Clients
pub mod Routes
pub mod Effects
pub mod Machine
mod Tests
pub mod Privacy
pub mod Shown
