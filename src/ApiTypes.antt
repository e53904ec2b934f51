-- ===== src/ApiTypes.antt =====
-- web/src/lib/api-types.ts (re-exported by web/src/lib/types.ts): the records that the API
-- returns. A union of literals is a data type, an optional field an `Option`, text a `Text`.
mod Enums
mod Resources
mod Details
pub use Enums.*
pub use Resources.*
pub use Details.*
