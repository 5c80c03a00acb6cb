-- ===== src/SysInfo.antt =====
-- src/sys_info.c and inc/sys_info.h: what the program reads about caches, pages and hugepages. The
-- files of /sys and /proc, and the system calls, are the parameter `Files`.
pub mod Files
pub mod Text
pub mod CacheInfo
pub mod Pagemap
pub mod Hugepages
pub mod Access
