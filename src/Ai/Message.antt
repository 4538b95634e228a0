-- ===== src/Ai/Message.antt =====
-- pkg/ai/types.go and pkg/ai/model.go: messages of a conversation and their content. The JSON
-- tags `Role` and `Type` are constants of each type and are the constructors here; the fields
-- that no modelled operation reads (signatures, diagnostics, deferred handles) are left out.
use midas.Common.{Bool, true, false, Option, List}
use midas.Common.Int.{ℤ}
use midas.Common.Text.{Text}

pub data StopReason : Type 0 where
  pending complete length tool_use error aborted deferred : StopReason

pub record Usage : Type 0 where
  pub input : ℤ
  pub output : ℤ
  pub cache_read : ℤ
  pub cache_write : ℤ
  pub total_tokens : ℤ

-- The zero value of `Usage`.
abbrev pub zero_usage : Usage
zero_usage = record {
  input = ℤ.pos 0;
  output = ℤ.pos 0;
  cache_read = ℤ.pos 0;
  cache_write = ℤ.pos 0;
  total_tokens = ℤ.pos 0;
}

-- `arguments` is what json.Marshal makes of the argument map, `none` where it fails.
pub record ToolCall : Type 0 where
  pub id : Text
  pub name : Text
  pub arguments : Option Text

pub data Part : Type 0 where
  text thinking image : Text → Part
  tool_call : ToolCall → Part

pub data Kind : Type 0 where
  text_kind thinking_kind image_kind tool_call_kind : Kind

-- A value of the interface `Content` holds one of the four types, a pointer to one, or a nil
-- pointer of one.
pub data Content : Type 0 where
  value pointer : Part → Content
  nil_pointer : Kind → Content

-- Either the text or the parts of a user's message.
pub data UserContent : Type 0 where
  plain : Text → UserContent
  parts : List Content → UserContent

pub record UserMessage : Type 0 where
  pub content : UserContent
  pub timestamp : ℤ
  pub synthetic : Bool

pub record AssistantMessage : Type 0 where
  pub content : List Content
  pub api : Text
  pub provider : Text
  pub model : Text
  pub usage : Usage
  pub stop_reason : StopReason
  pub error_message : Text
  pub timestamp : ℤ

pub record ToolResultMessage : Type 0 where
  pub tool_call_id : Text
  pub tool_name : Text
  pub content : List Content
  pub is_error : Bool
  pub timestamp : ℤ

pub data Body : Type 0 where
  user : UserMessage → Body
  assistant : AssistantMessage → Body
  tool_result : ToolResultMessage → Body

pub data Author : Type 0 where
  user_author assistant_author tool_result_author : Author

-- A value of the interface `Message`.
pub data Message : Type 0 where
  value pointer : Body → Message
  nil_pointer : Author → Message

-- NewUserMessage and NewSyntheticMessage
unfoldable pub new_user_message : Text → ℤ → UserMessage
new_user_message t at = record { content = plain t; timestamp = at; synthetic = false }

unfoldable pub new_synthetic_message : Text → ℤ → UserMessage
unfolding new_user_message
new_synthetic_message t at = record (new_user_message t at) { synthetic = true }
