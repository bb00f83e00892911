-- ===== src/Settings.antt =====
-- The preferences of a user: `updatePreferences` of server/src/models/user.ts and `updateMyPreferences`
-- of server/src/controllers/meController.ts.
mod Preferences
pub mod Obeyed
unfoldable pub use Preferences.*
