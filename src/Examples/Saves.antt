-- ===== src/Examples/Saves.antt =====
-- A conversation with an attached file, saved and loaded: agent/tree/serialize.go, agent/session.go.
use graph_agent_dev_kit.Common.{
  none, some, [], ◌∷◌, ok, err, ◌≡◌, refl, ne_of_test, sym, ap, arith, eq_iff,
}
use graph_agent_dev_kit.Common.Dict.{Dict, get, put}
use graph_agent_dev_kit.Types.Content.{Message, text, file, FileContent, user, SystemContent}
use graph_agent_dev_kit.Types.Errors.{opaque_error}
use graph_agent_dev_kit.Memwal.{MemWal, mem_wal}
use graph_agent_dev_kit.Tree.State.{Tree, new}
use graph_agent_dev_kit.Tree.Grow.{add_child}
use graph_agent_dev_kit.Tree.History.{Reached, made, after, add_child_step}
use graph_agent_dev_kit.Tree.Serialize.Envelopes.{Codec}
use graph_agent_dev_kit.Tree.Serialize.Trees.{marshal_json, unmarshal_json}
use graph_agent_dev_kit.Tree.Serialize.RoundTrip.{Reached-unmarshal_json, stored_tree}
use graph_agent_dev_kit.Agent.Session.{Session, FileSystem, save_session_to_file}
use graph_agent_dev_kit.Agent.Session.Restored.{IsReadBack}
use graph_agent_dev_kit.Examples.Wires.{Wire, wire_json, wire_json-IsTreeJson, a_text}

abbrev photo : FileContent
photo = record { uri = "file:///a.png"; media_type = "image/png"; bytes = 7 ∷ []; filename = "a" }

abbrev look : Message
look = user (text "look" ∷ file photo ∷ [])

abbrev empty : Tree MemWal
empty = new (SystemContent.text "be brief" ∷ []) "r" 0 none

abbrev talk : Tree MemWal
talk = (add_child "r" look "a" 1 empty).1

talk-Reached : Reached talk
unfolding new get put
talk-Reached =
    after (made (SystemContent.text "be brief" ∷ []) "r" 0 none (ne_of_test "r" "" refl))
      (add_child_step "r" look "a" 1 (ne_of_test "a" "" refl) refl)

Reached-unmarshal_json_example :
    (w : Wire) × (marshal_json wire_json talk ≡ ok w)
    × (unmarshal_json wire_json w empty ≡ (ok tt, stored_tree talk none))
unfolding new
Reached-unmarshal_json_example =
    Reached-unmarshal_json wire_json wire_json-IsTreeJson talk empty talk-Reached

-- A disk whose files hold whole sessions.
abbrev disk : FileSystem (Dict (Session Wire)) (Session Wire)
disk = record {
  write_file = λ path s files. (ok tt, (path, s) ∷ files);
  read_file = λ path files. elim (get files path) [
    | none ↦ (err (opaque_error "no such file"), files)
    | some s ↦ (ok s, files)
  ];
}

abbrev session_json : Codec (Session Wire) (Session Wire)
session_json = record { marshal = λ s. ok s; unmarshal = λ s. ok s }

abbrev session : Session Wire
session = record {
  id = "s1";
  created_at = 5;
  updated_at = 5;
  tree_data = a_text "{}";
  metadata = [];
}

disk-IsReadBack : IsReadBack disk
unfolding get
disk-IsReadBack path raw s s' e =
    let same : s' ≡ (path, raw) ∷ s = ap (λ r. r.1) (sym e) in
    rw same (ground (arith, eq_iff path path))

saved_to_disk :
    save_session_to_file session_json disk session "a.json" [] ≡ (ok tt, ("a.json", session) ∷ [])
unfolding save_session_to_file
saved_to_disk = refl
