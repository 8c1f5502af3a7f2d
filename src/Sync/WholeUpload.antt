-- ===== src/Sync/WholeUpload.antt =====
-- A whole upload sync, whose source is indexed: what is transferred, what is deleted, and how it
-- ends.
use axxx.Prelude.{string_eq}
