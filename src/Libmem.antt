-- ===== src/Libmem.antt =====
-- src/libmem.c: regions of memory for a process, and bytes through its page table.
-- In its parts `none` is undefined behaviour: a dereference of NULL, an access outside an array, the
-- use of a variable that nobody set; for the search of a free region it is a loop without end too.
-- The dumps that the `lib` functions print are left out.
pub mod FreeList
pub mod Alloc
pub mod Paging
pub mod Private
pub mod Tests
