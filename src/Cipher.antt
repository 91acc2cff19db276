-- ===== src/Cipher.antt =====
-- The cipher for secrets: common/utils/AesCipher.py.
pub mod Aes
pub mod Utf
pub mod Padding
mod Tests
