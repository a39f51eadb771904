-- ===== src/Chat/State.antt =====
-- chat-state.ts: the state and the events. `J` is the type of values that the reducer passes on
-- unread: tool arguments, tool results and the fields of a message beside those named here.
use reins.Base.{ℕ, Bool, false, Option, List, [], Text}

pub data Role : Type 0 where
  user assistant tool_result : Role

pub record ToolCall (J : Type 0) : Type 0 where
  pub id : Text
  pub partial_json : Option Text
  pub rest : J

-- A block of content; `rest` is what a text or a thinking block holds beside its text.
pub data Block (J : Type 0) : Type 0 where
  text_block thinking_block : (content : Text) (rest : J) → Block J
  tool_block : ToolCall J → Block J

pub record Message (J : Type 0) : Type 0 where
  pub role : Role
  pub content : List (Block J)
  pub stopped_by_error : Bool
  pub error_message : Option Text
  pub rest : J

pub record ToolExecution (J : Type 0) : Type 0 where
  pub done : Bool
  pub result : Option J
  pub is_error : Option Bool

pub record StreamingAssistant (J : Type 0) : Type 0 where
  pub stream_id : Text
  pub durable_id : Option Text
  pub message : Message J
  pub stale : Bool

pub data Step (J : Type 0) : Type 0 where
  text_start thinking_start toolcall_start : ℕ → Step J
  text_delta thinking_delta toolcall_delta : ℕ → Text → Step J
  text_end thinking_end : ℕ → Text → Step J
  toolcall_end : ℕ → ToolCall J → Step J

pub data Event (J : Type 0) : Type 0 where
  agent_start entry_added : Event J
  message_start : Message J → Text → Event J
  message_end : Message J → Text → Option Text → Event J
  message_update : Option (Message J) → Text → Step J → Event J
  tool_execution_start : Text → Event J
  tool_execution_update : Text → Option J → Event J
  tool_execution_end : Text → Option J → Option Bool → Event J
  agent_end : Option (List (Message J)) → Option Text → Event J
  compaction_start : Event J
  compaction_end : Option Text → Event J
  auto_retry_start : (attempt max_attempts : ℕ) → Text → Event J
  auto_retry_end : Bool → Option Text → Event J

pub record ChatState (J : Type 0) : Type 0 where
  pub streaming_assistants : List (StreamingAssistant J)
  pub tool_executions : List (Text × ToolExecution J)
  pub is_compacting : Bool
  pub error_message : Text

unfoldable pub initial_chat_state : {J : Type 0} → ChatState J
initial_chat_state = record {
  streaming_assistants = [];
  tool_executions = [];
  is_compacting = false;
  error_message = [];
}
