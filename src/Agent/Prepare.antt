-- ===== src/Agent/Prepare.antt =====
-- agent/agent.go: prepareMessages and mergeConfig.
pub mod Resolved
use graph_agent_dev_kit.Common.{
  String, ◌==◌, Bool, true, false, Option, none, some, List, [], ◌∷◌, if◌then◌else◌,
}
use graph_agent_dev_kit.Common.Int.{ℤ, is_nonzero}
use graph_agent_dev_kit.Types.Content.{
  Message, system, user, assistant, SystemContent, UserContent, ConfigContent, CompactConfig,
}
use graph_agent_dev_kit.Types.Compactor.{Compactor, to_compactor}

pub record ResolvedConfig : Type 0 where
  pub model : String
  pub max_iter : ℤ
  pub compactor : Option Compactor
  pub compact_now : Bool

abbrev override_compactor : Option CompactConfig → Option Compactor → Option Compactor
override_compactor none old = old
override_compactor (some c) old = some (to_compactor c)

-- mergeConfig
unfoldable pub merge_config : ResolvedConfig → ConfigContent → ResolvedConfig
merge_config rc cc = record {
  model = if cc.model == "" then rc.model else cc.model;
  max_iter = if is_nonzero cc.max_iter then cc.max_iter else rc.max_iter;
  compactor = override_compactor cc.compact rc.compactor;
  compact_now = if cc.compact_now then true else rc.compact_now;
}

-- The initial settings of prepareMessages, from the agent's configuration.
unfoldable pub initial_config : ℤ → Option CompactConfig → ResolvedConfig
initial_config max_iter compact_cfg = record {
  model = "";
  max_iter = max_iter;
  compactor = override_compactor compact_cfg none;
  compact_now = false;
}

-- The inner loops: the settings after a message's content, and the content that is kept.
unfoldable pub system_config : ResolvedConfig → List SystemContent → ResolvedConfig
system_config rc [] = rc
system_config rc (SystemContent.config cc ∷ cs) = system_config (merge_config rc cc) cs
system_config rc (_ ∷ cs) = system_config rc cs

unfoldable pub system_kept : List SystemContent → List SystemContent
system_kept [] = []
system_kept (SystemContent.config cc ∷ cs) = system_kept cs
system_kept (SystemContent.text s ∷ cs) = SystemContent.text s ∷ system_kept cs
system_kept (SystemContent.tool_result r ∷ cs) = SystemContent.tool_result r ∷ system_kept cs

unfoldable pub user_config : ResolvedConfig → List UserContent → ResolvedConfig
user_config rc [] = rc
user_config rc (UserContent.config cc ∷ cs) = user_config (merge_config rc cc) cs
user_config rc (_ ∷ cs) = user_config rc cs

unfoldable pub user_kept : List UserContent → List UserContent
user_kept [] = []
user_kept (UserContent.config cc ∷ cs) = user_kept cs
user_kept (UserContent.feedback f ∷ cs) = user_kept cs
user_kept (UserContent.text s ∷ cs) = UserContent.text s ∷ user_kept cs
user_kept (UserContent.tool_result r ∷ cs) = UserContent.tool_result r ∷ user_kept cs
user_kept (UserContent.file f ∷ cs) = UserContent.file f ∷ user_kept cs

-- if len(filtered) > 0 { out = append(out, …) }
abbrev pub add_system : List SystemContent → List Message → List Message
add_system [] out = out
add_system (c ∷ cs) out = system (c ∷ cs) ∷ out

abbrev pub add_user : List UserContent → List Message → List Message
add_user [] out = out
add_user (c ∷ cs) out = user (c ∷ cs) ∷ out

-- prepareMessages
unfoldable pub prepare_messages : ResolvedConfig → List Message → ResolvedConfig × List Message
unfolding system_config system_kept user_config user_kept
prepare_messages rc [] = (rc, [])
prepare_messages rc (system cs ∷ ms) =
    let (rc', out) = prepare_messages (system_config rc cs) ms in
    (rc', add_system (system_kept cs) out)
prepare_messages rc (user cs ∷ ms) =
    let (rc', out) = prepare_messages (user_config rc cs) ms in (rc', add_user (user_kept cs) out)
prepare_messages rc (assistant cs ∷ ms) =
    let (rc', out) = prepare_messages rc ms in (rc', assistant cs ∷ out)
