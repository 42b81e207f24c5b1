-- ===== src/Watcher.antt =====
-- internal/watcher: the memories that agents keep in their own files, read and stored.
pub mod Seen
pub mod Keywords
pub mod Refiner
pub mod Scan
