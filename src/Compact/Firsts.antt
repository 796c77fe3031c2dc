-- ===== src/Compact/Firsts.antt =====
-- The compaction of list operations in packages/houdini/src/runtime/cache/storage.ts, by the operations kept.
