-- ===== src/Util.antt =====
-- Helpers of common/util: the array list, the time stamps the bounded
-- copies and the allocator of pages.
pub mod ArrayList
pub mod Ftspec
pub mod Copy
pub mod Pages
