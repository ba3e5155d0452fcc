-- ===== src/Pe.antt =====
-- The PE reader of projects/prospero-win/src: pe_image.c, pe_layout.c, pe_reloc.c, pe_import.c
-- and pe_resource.c.
pub mod Bytes
pub mod Image
pub mod Layout
pub mod Reloc
pub mod Resource
pub mod Import
