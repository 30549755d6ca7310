-- ===== src/Runner.antt =====
-- utils.go, doWithServers, bindServers, addrInUseHint and runServers; run_command.go, Run. A
-- container of glue is a record of what the code asks of it; log calls are left out.
mod Types
mod Bind
mod Containers
mod Run
pub mod Bound
pub mod Closing
pub mod Exit
mod Examples
unfoldable pub use Types.*
unfoldable pub use Bind.*
unfoldable pub use Containers.*
unfoldable pub use Run.*
