-- ===== src/Logger.antt =====
-- packages/service/logger/src/index.ts: the structured logger. `toLowerCase` is a parameter of what
-- uses it. Words names the keys to redact, Redaction copies the fields, Levels filters and writes.
pub mod Words
pub mod Redaction
pub mod Levels
