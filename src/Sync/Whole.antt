-- ===== src/Sync/Whole.antt =====
-- A whole sync whose destination is indexed: what is transferred, what is deleted, and how it ends.
use axxx.Prelude.{string_eq}
