-- ===== src/Dns.antt =====
-- common/resolver/header.cc and the inline functions of common/resolver/resolver.h: DNS packets.
pub mod Cursor
pub mod Header
pub mod Name
pub mod Answers
