-- ===== src/Exec.antt =====
-- Python statements as actions: an action reads the `Env`, extends the trace, and returns or raises.
-- What was asked before a raise stays asked. Output by `print` is not modelled.
mod Monad
mod Requests
unfoldable pub use Monad.*
unfoldable pub use Requests.*
