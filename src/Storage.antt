-- ===== src/Storage.antt =====
-- internal/platform/storage/service.go: the checks on an upload, the key that it is stored under, and
-- the operations on the store.
pub mod Magic
pub mod Naming
pub mod Service
pub mod Safe
pub mod Access
pub mod Processor

-- Why the service refuses, without the texts.
pub data StorageError : Type 0 where
  filename_empty content_type_empty size_negative : StorageError
  path_traversal absolute_path hidden_file suspicious_pattern filename_too_long null_bytes :
      StorageError
  extension_mismatch extension_unsupported content_type_unsupported : StorageError
  header_unreadable file_too_small magic_unsupported content_mismatch : StorageError
  put_failed zero_size path_empty not_found stat_failed delete_failed get_failed : StorageError
