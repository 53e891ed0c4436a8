-- ===== src/Page.antt =====
-- The page tables of kernel/src/page.rs and kernel/src/page.
pub mod Direct
pub mod Entry
pub mod Table
