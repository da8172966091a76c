-- ===== src/Loop/Chat.antt =====
-- llm/chat_request.go, llm/chat_response.go, loop/turn.go and tool/tool.go: what the runner hands
-- around, and what it calls. The provider, the tools, the sanitizer, the clock, the context and
-- SHA-256 are a parameter with a world of its own; what a provider gives through `Stream` and through
-- `Complete` is one operation of it. Left out of a request are the system blocks, the tool schemas
-- and the cache points, which the loop hands through, and of a turn its random id, and of the
-- sanitizer's metadata all but the tool's name. A JSON text is a text.
use brain.Prelude.{ℕ, String, Bool, true, false, Option, List}
use brain.Prelude.Int.{ℤ}
use brain.Loop.Budget.{Floats, BudgetSnapshot}
use brain.Loop.Run.{State}

-- `llm.ContentBlock`
pub record ContentBlock : Type 0 where
  pub type : String
  pub text : String
  pub tool_use_id : String
  pub tool_name : String
  pub input : String
  pub output : String
  pub is_error : Bool

-- `llm.Message`
pub record Message : Type 0 where
  pub role : String
  pub content : List ContentBlock

pub record RunOptions : Type 0 where
  pub tool_choice : String
  pub model : String
  pub max_tokens : ℤ
  pub stream : Bool

-- `tool.Result`
pub record ToolResult : Type 0 where
  pub output : String
  pub is_error : Bool

-- An error's text, or a value.
pub data Outcome (A : Type 0) : Type 0 where
  done : A → Outcome A
  failed_with : String → Outcome A

-- What `ctx.Err()` shows.
pub data CtxState : Type 0 where
  live ctx_canceled ctx_deadline_exceeded : CtxState

abbrev pub is_live : CtxState → Bool
is_live live = true
is_live _ = false

abbrev pub is_ctx_canceled : CtxState → Bool
is_ctx_canceled ctx_canceled = true
is_ctx_canceled _ = false

module _ (f : Floats) where
  open f use {Float, add_float}

  -- `llm.ChatResponse`
  pub record ChatResponse : Type 0 where
    pub stop_reason : String
    pub content : List ContentBlock
    pub cost_usd : Float

  -- `llm.ChatRequest`
  pub record ChatRequest : Type 0 where
    pub run_id : String
    pub turn_index : ℤ
    pub brain_id : String
    pub messages : List Message
    pub tool_choice : String
    pub model : String
    pub max_tokens : ℤ
    pub stream : Bool
    pub remaining_budget : BudgetSnapshot f

  -- A response, or an error: whether it is `context.Canceled`, and the code `toBrainError` gives it.
  pub data Completion : Type 0 where
    responded : ChatResponse → Completion
    llm_error : Bool → String → Completion

  pub record TurnResult : Type 0 where
    pub index : ℤ
    pub llm_calls : ℕ
    pub tool_calls : ℕ
    pub ended_at : Option ℕ
    pub response : Option ChatResponse
    pub next_state : State
    pub error : Option String

-- Everything a runner calls.
pub record Env (f : Floats) : Type 1 where
  pub World : Type 0
  pub now : World → ℕ × World
  pub ctx : World → CtxState
  pub call_provider : ChatRequest f → World → Completion f × World
  pub has_tool : String → World → Bool
  pub execute_tool : String → String → World → Outcome ToolResult × World
  pub has_sanitizer : Bool
  pub sanitize : ToolResult → String → World → Outcome ContentBlock × World
  pub content_hash : String → String → String
