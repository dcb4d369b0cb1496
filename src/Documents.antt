-- ===== src/Documents.antt =====
-- What the engine reads from outside: environment variables, and JSON documents, which os.ReadFile
-- and encoding/json deliver as values or refuse.

-- os.ReadFile and then json.Unmarshal.
pub data Document (A : Type 0) : Type 0 where
  unreadable : Document A
  malformed : Document A
  decoded : A → Document A
