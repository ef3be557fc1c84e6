-- ===== src/Agent/Env.antt =====
-- What the agent loop of agent/agent.go only calls, with the settings of AgentConfig that it reads.
-- None of this is implemented in the package: a value of Env is an argument of the model.
use graph_agent_dev_kit.Common.{ℕ, String, Bool, Option, List, Result}
use graph_agent_dev_kit.Common.Dict.{Dict}
use graph_agent_dev_kit.Common.Int.{ℤ}
use graph_agent_dev_kit.Types.Content.{UserContent, CompactConfig}
use graph_agent_dev_kit.Types.Errors.{Error}
use graph_agent_dev_kit.Types.Delta.{ToolDef, Chat}
use graph_agent_dev_kit.Agent.Tools.{ToolEnv}

-- What a resolver gives for a URI.
pub record Resolved : Type 0 where
  pub bytes : List ℕ
  pub media_type : String

pub record Env : Type 0 where
  pub max_iter : ℤ
  pub compact_cfg : Option CompactConfig
  pub tools : ToolEnv
  pub tool_defs : List ToolDef
  -- ChatStream, and ChatStreamWithSchema where a schema is set and the provider has it, at the
  -- n-th iteration.
  pub chat : ℕ → Chat
  pub schema_chat : ℕ → Option Chat
  pub uri_scheme : String → String
  pub resolvers : Dict (String → Result Error Resolved)
  pub extractors : Dict (List ℕ → String → Result Error (List UserContent))
  pub supports : String → Bool
  pub cancelled : ℕ → Bool
  pub latency : ℕ → ℕ
  pub ids : ℕ → String
  pub clock : ℕ → ℕ
