-- ===== src/Text.antt =====
-- Text as bytes: src/main/c/StringUtil.cpp, src/main/c/seasocks/ToString.h, src/main/c/seasocks/StrCompare.h
-- and src/main/c/internal/Base64.cpp.
pub mod Numbers
pub mod Ascii
pub mod Digits
pub mod Strings
pub mod Words
pub mod Base64
