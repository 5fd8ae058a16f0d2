-- ===== src/Editor.antt =====
-- The editor: the text store of apps/medit/gap.c, the lines of apps/medit/doc.c, the search of
-- apps/medit/search.c, the block moves of lib/hdk/far.c and the core of apps/medit/edit.c.
pub mod Far
pub mod Gap
pub mod Lines
pub mod Find
pub mod Edit
