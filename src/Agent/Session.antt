-- ===== src/Agent/Session.antt =====
-- agent/session.go: a conversation saved as a Session, and a Session in a file. The package os is a
-- parameter: writes and reads of files over any state.
pub mod Restored
use graph_agent_dev_kit.Common.{
  ℕ, String, [], Result, ok, err, Exec, ◌>>=◌, reading, continue, and_then,
}
use graph_agent_dev_kit.Common.Dict.{Dict, put}
use graph_agent_dev_kit.Types.Content.{Json, string}
use graph_agent_dev_kit.Types.Errors.{Error, in_context}
use graph_agent_dev_kit.Tree.State.{Tree}
use graph_agent_dev_kit.Tree.Serialize.Envelopes.{Codec}
use graph_agent_dev_kit.Tree.Serialize.Trees.{TreeJson, marshal_json, unmarshal_json}

pub record Session (Raw : Type 0) : Type 0 where
  pub id : String
  pub created_at : ℕ
  pub updated_at : ℕ
  pub tree_data : Raw
  pub metadata : Dict Json

pub record FileSystem (S Raw : Type 0) : Type 0 where
  pub write_file : String → Raw → Exec S Error (Unit {0})
  pub read_file : String → Exec S Error Raw

module _ {Raw : Type 0} (json : TreeJson Raw) {W : Type 0} where
  -- SaveSession, of an agent with its name and its tree; `id` is the new id.
  unfoldable pub save_session : String → String → ℕ → Tree W → Result Error (Session Raw)
  save_session agent_name id now t =
      and_then (in_context "marshal tree" (marshal_json json t)) (λ raw. ok (record {
        id = id;
        created_at = now;
        updated_at = now;
        tree_data = raw;
        metadata = put [] "agent_name" (string agent_name);
      }))

  -- LoadSession: what UnmarshalJSON wrote before an error stays written.
  unfoldable pub load_session : Session Raw → Exec (Tree W) Error (Unit {0})
  load_session s t =
      let r = unmarshal_json json s.tree_data t in (in_context "unmarshal tree" r.0, r.1)

-- The text of a file may be of another type than the texts that a session holds.
module _ {File Raw S : Type 0} (json : Codec File (Session Raw)) (os : FileSystem S File) where
  -- SaveSessionToFile
  unfoldable pub save_session_to_file : Session Raw → String → Exec S Error (Unit {0})
  save_session_to_file s path = do
    raw ← reading (λ files. in_context "marshal session" (json.marshal s))
    os.write_file path raw

  -- LoadSessionFromFile
  unfoldable pub load_session_from_file : String → Exec S Error (Session Raw)
  load_session_from_file path files =
      continue (λ raw. reading (λ files'. in_context "unmarshal session" (json.unmarshal raw)))
        (in_context "read session file" (os.read_file path files).0, (os.read_file path files).1)
