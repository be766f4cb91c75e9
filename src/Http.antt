-- ===== src/Http.antt =====
-- Requests: src/main/c/seasocks/Request.h, src/main/c/seasocks/Request.cpp and src/main/c/PageRequest.cpp.
pub mod Request
pub mod Headers
pub mod Parse
pub mod Mime
pub mod Upgrade
