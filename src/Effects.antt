-- ===== src/Effects.antt =====
-- The effects of the program, its environment and the rules by which its parts are proved.
mod Monad
pub mod Results
mod Rules
mod Bounds
mod World
mod Calls
mod Keeping
mod Doing
mod Parts
unfoldable pub use Monad.*
pub use Results.{Returns, Any}
pub use Rules.*
pub use Bounds.*
pub use Keeping.*
pub use Doing.*
pub use Parts.*
pub use Calls.*
unfoldable pub use World.*
