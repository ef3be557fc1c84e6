-- ===== src/Tree/Serialize/Trees.antt =====
-- agent/tree/serialize.go: MarshalJSON and UnmarshalJSON of the Tree. A state is the number of its
-- constructor, so the serialised node keeps the constructor.
use graph_agent_dev_kit.Common.{
  ℕ, String, ◌<>◌, Option, List, [], ◌∷◌, Result, ok, Exec, continue, and_then,
}
use graph_agent_dev_kit.Common.Dict.{Dict, put}
use graph_agent_dev_kit.Types.Content.{Message}
use graph_agent_dev_kit.Types.Errors.{Error, in_context}
use graph_agent_dev_kit.Types.Node.{Node, NodeState, Checkpoint}
use graph_agent_dev_kit.Tree.State.{Tree}
use graph_agent_dev_kit.Tree.Serialize.Envelopes.{
  Codec, MessageJson, role, each, marshal_message, unmarshal_message,
}

pub record SerializedNode (Raw : Type 0) : Type 0 where
  pub id : String
  pub parent_id : String
  pub role_name : String
  pub message : Raw
  pub state : NodeState
  pub version : ℕ
  pub depth : ℕ
  pub branch_id : String
  pub created_at : ℕ
  pub updated_at : ℕ
  pub archived_at : Option ℕ
  pub archived_by : String
  pub summary_of : List String

-- A serializedCheckpoint has the fields of a Checkpoint.
pub record SerializedTree (Raw : Type 0) : Type 0 where
  pub nodes : List (SerializedNode Raw)
  pub children : Dict (List String)
  pub root_id : String
  pub branches : Dict String
  pub active_branch : String
  pub checkpoints : Dict Checkpoint

pub record TreeJson (Raw : Type 0) : Type 0 where
  pub messages : MessageJson Raw
  pub tree : Codec Raw (SerializedTree Raw)

-- for k, v := range d { m[k] = v }
unfoldable pub put_all {ℓ} : {V : Type ℓ} → Dict V → Dict V → Dict V
put_all m [] = m
put_all m ((k, v) ∷ d) = put_all (put m k v) d

-- for _, scp := range st.Checkpoints: the key is the id that the checkpoint holds.
unfoldable pub put_checkpoints : Dict Checkpoint → Dict Checkpoint → Dict Checkpoint
put_checkpoints m [] = m
put_checkpoints m ((k, cp) ∷ d) = put_checkpoints (put m cp.id cp) d

module _ {Raw : Type 0} (json : TreeJson Raw) where
  -- A node as MarshalJSON writes it, with its message in JSON.
  unfoldable pub serialized_node : Node → Raw → SerializedNode Raw
  unfolding role
  serialized_node n raw = record {
    id = n.id;
    parent_id = n.parent_id;
    role_name = role n.message;
    message = raw;
    state = n.state;
    version = n.version;
    depth = n.depth;
    branch_id = n.branch_id;
    created_at = n.created_at;
    updated_at = n.updated_at;
    archived_at = n.archived_at;
    archived_by = n.archived_by;
    summary_of = n.summary_of;
  }

  -- An entry of t.nodes as MarshalJSON writes it.
  unfoldable pub marshal_node : String × Node → Result Error (SerializedNode Raw)
  unfolding marshal_message serialized_node
  marshal_node (k, n) =
      and_then
        (in_context ("marshal message for node " <> n.id) (marshal_message json.messages n.message))
        (λ raw. ok (serialized_node n raw))

  unfoldable pub node_of : SerializedNode Raw → Message → Node
  node_of sn msg = record {
    id = sn.id;
    parent_id = sn.parent_id;
    message = msg;
    state = sn.state;
    version = sn.version;
    depth = sn.depth;
    branch_id = sn.branch_id;
    created_at = sn.created_at;
    updated_at = sn.updated_at;
    archived_at = sn.archived_at;
    archived_by = sn.archived_by;
    summary_of = sn.summary_of;
  }

  unfoldable pub unmarshal_node : SerializedNode Raw → Result Error Node
  unfolding unmarshal_message node_of
  unmarshal_node sn =
      and_then
        (in_context ("node " <> sn.id) (unmarshal_message json.messages sn.role_name sn.message))
        (λ msg. ok (node_of sn msg))

  -- for _, sn := range st.Nodes: what was read before an error stays in the map.
  unfoldable pub read_nodes : List (SerializedNode Raw) → Exec (Dict Node) Error (Unit {0})
  unfolding unmarshal_node
  read_nodes [] nodes = (ok tt, nodes)
  read_nodes (sn ∷ sns) nodes =
      continue (λ n d. read_nodes sns (put d n.id n)) (unmarshal_node sn, nodes)

  module _ {W : Type 0} where
    unfoldable pub serialized : List (SerializedNode Raw) → Tree W → SerializedTree Raw
    unfolding put_all
    serialized sns t = record {
      nodes = sns;
      children = put_all [] t.children;
      root_id = t.root_id;
      branches = put_all [] t.branches;
      active_branch = t.active_branch;
      checkpoints = put_all [] t.checkpoints;
    }

    -- MarshalJSON
    unfoldable pub marshal_json : Tree W → Result Error Raw
    unfolding serialized each marshal_node
    marshal_json t =
        and_then (each marshal_node t.nodes) (λ sns. json.tree.marshal (serialized sns t))

    -- The maps of the receiver that UnmarshalJSON makes new, and the fields it sets first.
    abbrev cleared : SerializedTree Raw → Tree W → Tree W
    cleared st t = record t {
      nodes = [];
      children = [];
      branches = [];
      checkpoints = [];
      root_id = st.root_id;
      active_branch = st.active_branch;
    }

    -- The rest of UnmarshalJSON, after the nodes.
    abbrev filled : SerializedTree Raw → Unit {0} → Exec (Tree W) Error (Unit {0})
    filled st u t = (
      ok tt,
      record t {
        children = put_all t.children st.children;
        branches = put_all t.branches st.branches;
        checkpoints = put_checkpoints t.checkpoints st.checkpoints;
      },
    )

    unfoldable pub fill : SerializedTree Raw → Exec (Tree W) Error (Unit {0})
    unfolding read_nodes put_all put_checkpoints
    fill st t =
        let r = read_nodes st.nodes [] in
        continue (filled st) (r.0, record (cleared st t) { nodes = r.1 })

    -- UnmarshalJSON: the receiver keeps its log.
    unfoldable pub unmarshal_json : Raw → Exec (Tree W) Error (Unit {0})
    unfolding fill
    unmarshal_json raw t = continue (λ st u. fill st u) (json.tree.unmarshal raw, t)
