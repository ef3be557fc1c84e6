-- ===== src/Agent/Session/Restored.antt =====
-- About saving a session of agent/session.go to a file and loading it into another agent's tree.
use graph_agent_dev_kit.Common.{ℕ, String, [], ok, ◌≡◌, refl}
use graph_agent_dev_kit.Common.Dict.{put}
use graph_agent_dev_kit.Types.Content.{string}
use graph_agent_dev_kit.Types.Wal.{Wal}
use graph_agent_dev_kit.Tree.State.{Tree}
use graph_agent_dev_kit.Tree.History.{Reached}
use graph_agent_dev_kit.Tree.Serialize.Envelopes.{Codec, IsReadAs}
use graph_agent_dev_kit.Tree.Serialize.Trees.{TreeJson}
use graph_agent_dev_kit.Tree.Serialize.RoundTrip.{IsTreeJson, Reached-unmarshal_json, stored_tree}
use graph_agent_dev_kit.Agent.Session.{
  Session, FileSystem, save_session, load_session, save_session_to_file, load_session_from_file,
}

-- What is read from a file is what was last written to it.
abbrev pub IsReadBack : {S Raw : Type 0} → FileSystem S Raw → Type 0
IsReadBack {S} {Raw} os =
    (path : String) (raw : Raw) (s s' : S)
    → os.write_file path raw s ≡ (ok tt, s')
    → os.read_file path s' ≡ (ok raw, s')

module _ {Raw W : Type 0} (json : TreeJson Raw) ⦃log : Wal W⦄ where
  -- In every tree that calls reach from a new tree, where encoding/json reads back what it
  -- wrote, SaveSession succeeds, and LoadSession of the session in another agent succeeds and
  -- gives its tree the contents of the saved one, without the bytes of files, while its log
  -- stays.
  pub session_restored :
      (t u : Tree W) (name id : String) (now : ℕ)
      → IsTreeJson json
      → Reached t
      → (s : Session Raw) × (save_session json name id now t ≡ ok s)
        × (load_session json s u ≡ (ok tt, stored_tree t u.wal))
  unfolding save_session load_session
  session_restored t u name id now back r =
      let (raw, w, b) = Reached-unmarshal_json json back t u r in
      let s : Session Raw = record {
        id = id;
        created_at = now;
        updated_at = now;
        tree_data = raw;
        metadata = put [] "agent_name" (string name);
      } in
      (s, rw w refl, rw b refl)

module _ {File Raw S : Type 0} (json : Codec File (Session Raw)) (os : FileSystem S File) where
  -- Where the file system reads what was last written and encoding/json reads back what it
  -- wrote, a session that SaveSessionToFile wrote with success is what LoadSessionFromFile of
  -- the path returns.
  pub session_file_restored :
      (s : Session Raw) (path : String) (files files' : S)
      → IsReadAs json (λ s. s)
      → IsReadBack os
      → save_session_to_file json os s path files ≡ (ok tt, files')
      → load_session_from_file json os path files' ≡ (ok s, files')
  unfolding save_session_to_file load_session_from_file
  session_file_restored s path files files' back file_back e =
      let (raw, w, b) = back s in
      let written : os.write_file path raw files ≡ (ok tt, files') = rw w at e in
      rw (file_back path raw files files' written, b) refl
