-- ===== src/Examples/Ollama.antt =====
-- A stream and a history for agent/provider/ollama.
use graph_agent_dev_kit.Common.{ℕ, String, true, false, List, [], ◌∷◌, ◌≡◌}
use graph_agent_dev_kit.Agent.Aggregator.{new_aggregator, push_all, final_blocks}
use graph_agent_dev_kit.Agent.Tools.{tool_calls}
use graph_agent_dev_kit.Provider.Ollama.{ChatChunk, ToolCallFunction, assistant_text, translate}
use graph_agent_dev_kit.Provider.Ollama.Streamed.{
  translate-final_blocks, chunk_text, all_calls, named_calls,
}

abbrev piece : String → List ToolCallFunction → ChatChunk
piece t calls = record {
  model = "m";
  message = record { role_name = "assistant"; content = t; images = []; tool_calls = calls };
  finished = false;
  done_reason = "";
  prompt_eval_count = 0;
  eval_count = 0;
}

abbrev last : ChatChunk
last = record {
  model = "m";
  message = record { role_name = "assistant"; content = ""; images = []; tool_calls = [] };
  finished = true;
  done_reason = "stop";
  prompt_eval_count = 3;
  eval_count = 4;
}

abbrev look_up : ToolCallFunction
look_up = record { name = "look_up"; arguments = [] }

abbrev stream : List ChatChunk
stream = piece "let " [] ∷ piece "me" (look_up ∷ []) ∷ piece "ok" [] ∷ last ∷ []

abbrev call_id : ℕ → String
call_id n = "id"

translate-final_blocks_example :
    (assistant_text (final_blocks (push_all new_aggregator (translate call_id 0 false stream)))
      ≡ "let meok")
    × (tool_calls (final_blocks (push_all new_aggregator (translate call_id 0 false stream)))
        ≡ record { id = "id"; name = "look_up"; arguments = [] } ∷ [])
unfolding chunk_text all_calls named_calls
translate-final_blocks_example = translate-final_blocks call_id stream
