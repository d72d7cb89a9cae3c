-- ===== src/Dos.antt =====
-- apps/parted/libparted/labels/dos.c: the DOS partition tables.
pub mod Chs
pub mod Number
pub mod Flags
pub mod Limits
pub mod Align
pub mod Ops
