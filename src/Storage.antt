-- ===== src/Storage.antt =====
-- storage.c: free space and the garbage collector. The disk is what the calls read of it: the
-- directory listings, `stat` of an object and `statfs` are arguments. `off_t` values are numbers.
pub mod Space
pub mod Gc
pub mod Revision
