-- ===== src/Js.antt =====
-- The values and operations of the language that the frontend is written in, as far as it uses
-- them: dynamic values, texts, numbers and plain objects.
mod Text
mod Values
pub mod Objects
pub mod Equality
pub mod Trimmed
unfoldable pub use Text.*
unfoldable pub use Values.*
