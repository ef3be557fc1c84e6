-- ===== src/Examples/Wires.antt =====
-- JSON texts for the tests, as a tree of what was written: encoding/json in concrete form.
use graph_agent_dev_kit.Common.{String, List, [], ◌∷◌, ok, err, ◌≡◌, refl, ap}
use graph_agent_dev_kit.Types.Content.{
  ToolUseContent, ToolResultContent, ConfigContent, FileContent, ThinkingContent, FeedbackContent,
}
use graph_agent_dev_kit.Types.Errors.{Error, opaque_error}
use graph_agent_dev_kit.Tree.Serialize.Envelopes.{ContentEnvelope}
use graph_agent_dev_kit.Tree.Serialize.Trees.{TreeJson, SerializedNode, SerializedTree}
use graph_agent_dev_kit.Tree.Serialize.Messages.{without_bytes}
use graph_agent_dev_kit.Tree.Serialize.RoundTrip.{IsTreeJson}

-- A node and a tree without the texts that they hold.
mutual
  pub data Wire : Type 0 where
    a_text : String → Wire
    a_tool_use : ToolUseContent → Wire
    a_tool_result : ToolResultContent → Wire
    a_config : ConfigContent → Wire
    a_file : FileContent → Wire
    a_thinking : ThinkingContent → Wire
    a_feedback : FeedbackContent → Wire
    an_envelope : Blocks → Wire
    a_tree : Nodes → SerializedTree (Unit {0}) → Wire

  pub data Blocks : Type 0 where
    nil : Blocks
    cons : String → Wire → Blocks → Blocks

  pub data Nodes : Type 0 where
    no_node : Nodes
    a_node : SerializedNode (Unit {0}) → Wire → Nodes → Nodes

unfoldable pub to_blocks : List (ContentEnvelope Wire) → Blocks
to_blocks [] = nil
to_blocks (e ∷ es) = cons e.kind e.raw (to_blocks es)

unfoldable pub from_blocks : Blocks → List (ContentEnvelope Wire)
from_blocks nil = []
from_blocks (cons k w bs) = record { kind = k; raw = w } ∷ from_blocks bs

from_to_blocks : (es : List (ContentEnvelope Wire)) → from_blocks (to_blocks es) ≡ es
unfolding from_blocks to_blocks
from_to_blocks [] = refl
from_to_blocks (e ∷ es) = ap (λ l. e ∷ l) (from_to_blocks es)

-- A node with another text for its message.
abbrev pub with_message : {A B : Type 0} → SerializedNode A → B → SerializedNode B
with_message sn m = record {
  id = sn.id;
  parent_id = sn.parent_id;
  role_name = sn.role_name;
  message = m;
  state = sn.state;
  version = sn.version;
  depth = sn.depth;
  branch_id = sn.branch_id;
  created_at = sn.created_at;
  updated_at = sn.updated_at;
  archived_at = sn.archived_at;
  archived_by = sn.archived_by;
  summary_of = sn.summary_of;
}

abbrev pub with_nodes :
    {A B : Type 0} → SerializedTree A → List (SerializedNode B) → SerializedTree B
with_nodes t sns = record {
  nodes = sns;
  children = t.children;
  root_id = t.root_id;
  branches = t.branches;
  active_branch = t.active_branch;
  checkpoints = t.checkpoints;
}

unfoldable pub to_nodes : List (SerializedNode Wire) → Nodes
to_nodes [] = no_node
to_nodes (sn ∷ sns) = a_node (with_message sn tt) sn.message (to_nodes sns)

unfoldable pub from_nodes : Nodes → List (SerializedNode Wire)
from_nodes no_node = []
from_nodes (a_node sn w ns) = with_message sn w ∷ from_nodes ns

from_to_nodes : (sns : List (SerializedNode Wire)) → from_nodes (to_nodes sns) ≡ sns
unfolding from_nodes to_nodes
from_to_nodes [] = refl
from_to_nodes (sn ∷ sns) = ap (λ l. sn ∷ l) (from_to_nodes sns)

abbrev bad : Error
bad = opaque_error "json: cannot unmarshal"

abbrev pub wire_json : TreeJson Wire
wire_json = record {
  messages = record {
    text = record {
      marshal = λ t. ok (a_text t);
      unmarshal = λ w. elim w [ a_text t ↦ ok t | _ ↦ err bad ];
    };
    tool_use = record {
      marshal = λ t. ok (a_tool_use t);
      unmarshal = λ w. elim w [ a_tool_use t ↦ ok t | _ ↦ err bad ];
    };
    tool_result = record {
      marshal = λ t. ok (a_tool_result t);
      unmarshal = λ w. elim w [ a_tool_result t ↦ ok t | _ ↦ err bad ];
    };
    config = record {
      marshal = λ t. ok (a_config t);
      unmarshal = λ w. elim w [ a_config t ↦ ok t | _ ↦ err bad ];
    };
    file = record {
      marshal = λ t. ok (a_file (without_bytes t));
      unmarshal = λ w. elim w [ a_file t ↦ ok t | _ ↦ err bad ];
    };
    thinking = record {
      marshal = λ t. ok (a_thinking t);
      unmarshal = λ w. elim w [ a_thinking t ↦ ok t | _ ↦ err bad ];
    };
    feedback = record {
      marshal = λ t. ok (a_feedback t);
      unmarshal = λ w. elim w [ a_feedback t ↦ ok t | _ ↦ err bad ];
    };
    envelope = record {
      marshal = λ es. ok (an_envelope (to_blocks es));
      unmarshal = λ w. elim w [ an_envelope bs ↦ ok (from_blocks bs) | _ ↦ err bad ];
    };
  };
  tree = record {
    marshal = λ t. ok (a_tree (to_nodes t.nodes) (with_nodes t []));
    unmarshal = λ w. elim w [ a_tree ns t ↦ ok (with_nodes t (from_nodes ns)) | _ ↦ err bad ];
  };
}

pub wire_json-IsTreeJson : IsTreeJson wire_json
wire_json-IsTreeJson = record {
  messages_back = record {
    text_back = λ t. (a_text t, refl, refl);
    tool_use_back = λ t. (a_tool_use t, refl, refl);
    tool_result_back = λ t. (a_tool_result t, refl, refl);
    config_back = λ t. (a_config t, refl, refl);
    file_back = λ t. (a_file (without_bytes t), refl, refl);
    thinking_back = λ t. (a_thinking t, refl, refl);
    feedback_back = λ t. (a_feedback t, refl, refl);
    envelope_back = λ es. (an_envelope (to_blocks es), refl, ap (λ l. ok l) (from_to_blocks es));
  };
  tree_back = λ t. (
    a_tree (to_nodes t.nodes) (with_nodes t []),
    refl,
    ap (λ l. ok (with_nodes t l)) (from_to_nodes t.nodes),
  );
}
