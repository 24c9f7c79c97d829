-- ===== src/Translations/Tables.antt =====
-- frontend/src/i18n.ts: the tables of texts, each under its name.
mod BaseEnglish
mod BaseChinese
mod AdditionalEnglish
mod AdditionalChinese
mod DraftEnglish
mod DraftChinese
mod CurrentEnglish
mod CurrentChinese
unfoldable pub use BaseEnglish.*
unfoldable pub use BaseChinese.*
unfoldable pub use AdditionalEnglish.*
unfoldable pub use AdditionalChinese.*
unfoldable pub use DraftEnglish.*
unfoldable pub use DraftChinese.*
unfoldable pub use CurrentEnglish.*
unfoldable pub use CurrentChinese.*
