-- ===== src/Types/Memory.antt =====
-- Memory records: frontend/src/lib/types.ts.
use agent_os_test.Prelude.{ℕ, Option, List, Text}
use agent_os_test.Json.{Number, Value}

pub data MemoryScope : Type 0 where
  session task project decision agent_run : MemoryScope

pub record MemoryRecord : Type 0 where
  pub id : Text
  pub scope : MemoryScope
  pub key : Text
  pub content : Text
  pub project_id : Option Text
  pub task_id : Option Text
  pub session_id : Option Text
  pub agent : Option Text
  pub tags : List Text
  pub metadata : List (Text × Value)
  pub importance : Number
  pub created_at : Text
  pub score : Option Number
  pub semantic_score : Option Number
  pub lexical_score : Option Number

pub record MemoryWrite : Type 0 where
  pub scope : MemoryScope
  pub key : Text
  pub content : Text
  pub project_id : Option (Option Text)
  pub task_id : Option (Option Text)
  pub session_id : Option (Option Text)
  pub agent : Option (Option Text)
  pub tags : Option (List Text)
  pub metadata : Option (List (Text × Value))
  pub importance : Option Number

pub record MemoryQuery : Type 0 where
  pub query : Option (Option Text)
  pub scopes : Option (List MemoryScope)
  pub project_id : Option (Option Text)
  pub task_id : Option (Option Text)
  pub session_id : Option (Option Text)
  pub agent : Option (Option Text)
  pub tags : Option (List Text)
  pub limit : Option ℕ

pub record MemoryContext : Type 0 where
  pub records : List MemoryRecord
  pub rendered : Text
