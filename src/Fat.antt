-- ===== src/Fat.antt =====
-- filesystems/fat: a reader for FAT volumes.
pub mod Bpb
pub mod Volume
pub mod Directory
pub mod Path
