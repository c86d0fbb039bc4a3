-- ===== src/Ui.antt =====
-- packages/web/ui/src: what the web apps share to read and show values.
pub mod Amount
pub mod Duration
pub mod Ids
pub mod DateLocale
pub mod Number
pub mod CopyButton
pub mod Strings
pub mod Address
pub mod Truncate
