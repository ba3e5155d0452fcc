-- ===== src/Lib.antt =====
-- Verification of the core of prospero-win (projects/prospero-win), the Windows compatibility runtime of
-- this laboratory: the code that reads, places and relocates a program, and the tables that the running
-- guest lives on.
--
-- How the parts interact. pe_image.c parses the bytes of a PE file into an image; pe_import.c walks the
-- import tables of that image through its translation of addresses and its reader of names, and
-- pe_resource.c finds data in the resource tree of the image; pe_layout.c plans the memory of the image,
-- section by section; pw_map.c reserves that memory from a backend, fills it
-- by the plan, has pe_reloc.c adjust the mapped bytes in place to the address they stand at, verifies the
-- result against the file, and sets the final protections. pw_import_bind.c fills the import slots of that
-- memory with the targets that a resolver gives. pw_guest_heap.c serves the allocations of the guest from one span.
-- pw_x86_cache.c keeps the translated blocks of guest code, by guest address, and the cursor of the code
-- arena. pw_segment.c makes the descriptors with which 32-bit code is entered.
-- pw_module_name.c gives the names of modules the form in which the loader compares them, and tells which
-- of them the runtime provides; pw_loader.c orders the modules behind their dependencies.
--
-- Which file models which part.
--  Common and its children: lists, tests and `&` over native numbers; Outcome, which stands for the
--    result codes of projects/prospero-win/include/prospero_win.h.
--  GuestHeap: projects/prospero-win/src/pw_guest_heap.c. Heap is PwGuestHeap and Block is
--    PwHeapBlock; init, alloc, calloc, realloc, free, query and validate are the functions
--    pw_guest_heap_*.
--  Pe.Bytes, Pe.Image: projects/prospero-win/src/pe_image.c. Image is PeImage; parse, directory,
--    section_for_rva, file_offset and read_name are the functions pe_image_*.
--  Pe.Layout: projects/prospero-win/src/pe_layout.c. plan is pe_layout_plan, protection is
--    pe_layout_protection.
--  Pe.Reloc: projects/prospero-win/src/pe_reloc.c. apply is pe_reloc_apply.
--  Pe.Import: projects/prospero-win/src/pe_import.c. parse is pe_import_parse, enumerate is
--    pe_import_enumerate.
--  Pe.Resource: projects/prospero-win/src/pe_resource.c. find, find_name and string are the functions
--    pe_resource_*.
--  Map: projects/prospero-win/include/prospero_win_vm.h, projects/prospero-win/src/pw_vm.c and
--    projects/prospero-win/src/pw_map.c. Backend is PwVmBackend; map_image, release, writable and exec_address
--    are the functions pw_map_*, and Map.Verify.verify and Map.Protect.finalize are pw_map_verify and
--    pw_map_finalize_protections. Map.Memory: the memset and memcpy of pw_map_image.
--  ImportBind: projects/prospero-win/src/pw_import_bind.c. bind32 is pw_import_bind32.
--  Segment: projects/prospero-win/src/pw_segment.c. encode, decode and the selectors are the
--    functions pw_segment_*.
--  BlockCache: projects/prospero-win/src/pw_x86_cache.c and the records of
--    projects/prospero-win/src/pw_x86_block.h that it stores. lookup, publish and reset are the functions
--    pw_x86_cache_*.
--  ModuleName: projects/prospero-win/src/pw_module_name.c. canonical and equal are the functions
--    pw_module_name_*; ModuleName.System.is_system is pw_module_is_system, over the table system_modules.
--  Loader: projects/prospero-win/src/pw_loader.c. compute_order is pw_loader_compute_order, with visit
--    and add_dependency.
--  Registry: projects/prospero-win/src/pw_registry.c. create, open_key, close_key, set_value and query_value
--    are pw_registry_create, _open, _close, _set and _query. The registry is one of the tables that the
--    guest's calls reach; no other part here uses it.
--
-- Conventions. A call that fails in C with a negative code is `err` of that code. An access outside of the
-- object that a pointer was made for, which C leaves undefined, is `fault`; that a part never reaches it is
-- a theorem. Pointers are present: the tests for NULL have no counterpart. State that a call changes is
-- passed and returned; where an error leaves state half changed (pe_reloc_apply, the counters of a lookup)
-- the state is returned with the error, and where the caller drops it with the error it is not kept.
-- Machine integers wrap where the source lets them, with the modulus written out. The host is
-- little-endian with 64-bit size_t, as the console is.
--
-- Loops are recursions on lists or on the rounds that the source allows (8192 thunks, 64 modules, one
-- round for each slot of a cache). The sweep over the pages has the image's bytes as its fuel, since a page
-- has one byte at least. The search for a system module has the length of the table, and the walk over
-- the modules the bound on the depth that the source tests. The loop over relocation blocks has no bound of its own in the source:
-- its fuel is the size of the directory, which is enough since a block has 8 bytes at least, unless the
-- directory ends in the last 8 bytes of the 32-bit addresses, where the test of the source wraps; a loop
-- that has no fuel left and would go on is `fault`.
--
-- Not modelled: the names of machines that pe_image_machine_name prints; code generation and execution (pw_x86_block.c, pw_x86_engine.c, pw_x87.c),
-- the Win32 surface (pw_win32.c, pw_user32.c, pw_gdi.c), the loading of modules, call gates,
-- the files of the registry, and all that calls the system or the console.
pub mod BlockCache
pub mod Common
pub mod GuestHeap
pub mod ImportBind
pub mod Loader
pub mod Map
pub mod ModuleName
pub mod Pe
pub mod Registry
pub mod Segment
