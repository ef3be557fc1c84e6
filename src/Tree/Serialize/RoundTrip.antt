-- ===== src/Tree/Serialize/RoundTrip.antt =====
-- About MarshalJSON and UnmarshalJSON of agent/tree/serialize.go, one after the other.
use graph_agent_dev_kit.Common.{
  String, none, some, Option, List, [], ◌∷◌, ◌++◌, ok, and_then, ◌≡◌, refl, ap, sym, ◌∙◌, arith,
  eq_iff,
}
use mathlib.Core.List.{append-nil, append_assoc}
use graph_agent_dev_kit.Common.Dict.{put-fresh, Dict, get, put, get-put}
use graph_agent_dev_kit.Types.Node.{Node, Checkpoint}
use graph_agent_dev_kit.Types.Wal.{Wal}
use graph_agent_dev_kit.Tree.State.{Tree}
use graph_agent_dev_kit.Tree.Valid.{IsTree}
use graph_agent_dev_kit.Tree.History.{Reached, Reached-IsTree}
use graph_agent_dev_kit.Tree.Serialize.Envelopes.{IsReadAs, each}
use graph_agent_dev_kit.Tree.Serialize.Trees.{
  TreeJson, SerializedNode, serialized_node, marshal_node, unmarshal_node, read_nodes, put_all,
  put_checkpoints, serialized, fill, marshal_json, unmarshal_json, node_of,
}
use graph_agent_dev_kit.Tree.Serialize.Stored.{IsMap, IsStored}
use graph_agent_dev_kit.Tree.Serialize.Kept.{Reached-IsStored}
use graph_agent_dev_kit.Tree.Serialize.Messages.{
  stored_message, IsMessageJson, marshal_message-unmarshal_message,
}

-- What a written node and a written tree are read back as; the log is the receiver's.
unfoldable pub stored_node : Node → Node
unfolding stored_message
stored_node n = record n { message = stored_message n.message }

unfoldable pub stored_nodes : Dict Node → Dict Node
unfolding stored_node
stored_nodes [] = []
stored_nodes ((k, n) ∷ d) = (k, stored_node n) ∷ stored_nodes d

abbrev pub stored_tree : {W : Type 0} → Tree W → Option W → Tree W
stored_tree t w = record t { nodes = stored_nodes t.nodes; wal = w }

module _ {ℓ} {V : Type ℓ} where
  pub get-first : (k : String) (v : V) (d : Dict V) → get ((k, v) ∷ d) k ≡ some v
  unfolding get
  get-first k v d = ground (arith, eq_iff k k)

  -- A later entry of a map is the map's entry at its key.
  pub get-later :
      (k j : String) (v x : V) (d : Dict V)
      → get d k ≡ none
      → get d j ≡ some x
      → get ((k, v) ∷ d) j ≡ some x
  unfolding get
  get-later k j v x d fresh e = ground (arith, eq_iff k j)

  -- Entries that are written to a map without their keys come after the map's own.
  put_all-append :
      (d m : Dict V)
      → IsMap d
      → ((j : String) (x : V) → get d j ≡ some x → get m j ≡ none)
      → put_all m d ≡ m ++ d
  unfolding put_all IsMap
  put_all-append [] m h apart = sym (append-nil m)
  put_all-append ((k, v) ∷ d) m (fresh, h) apart =
      put_all-append d (put m k v) h (λ j x e.
        ground
          (arith, get-put m k j v, eq_iff k j, apart j x (get-later k j v x d fresh e), fresh, e))
      ∙ ap (λ l. l ++ d) (put-fresh m k v (apart k v (get-first k v d)))
      ∙ append_assoc m ((k, v) ∷ []) d

  pub put_all_id : (d : Dict V) → IsMap d → put_all [] d ≡ d
  put_all_id d h = put_all-append d [] h (λ j x e. unfold get in refl)

put_checkpoints-eq :
    (d m : Dict Checkpoint)
    → IsMap d
    → ((c : String) (cp : Checkpoint) → get d c ≡ some cp → cp.id ≡ c)
    → put_checkpoints m d ≡ put_all m d
unfolding put_checkpoints put_all IsMap
put_checkpoints-eq [] m h keyed = refl
put_checkpoints-eq ((k, cp) ∷ d) m (fresh, h) keyed =
    put_checkpoints-eq d (put m cp.id cp) h (λ c x e. keyed c x (get-later k c cp x d fresh e))
    ∙ ap (λ i. put_all (put m i cp) d) (keyed k cp (get-first k cp d))

get-stored_nodes : (d : Dict Node) (k : String) → get d k ≡ none → get (stored_nodes d) k ≡ none
unfolding stored_nodes get
get-stored_nodes [] k h = refl
get-stored_nodes ((j, n) ∷ d) k h = ground (arith, get-stored_nodes d k)

stored_nodes-IsMap : (d : Dict Node) → IsMap d → IsMap (stored_nodes d)
unfolding stored_nodes IsMap
stored_nodes-IsMap [] h = tt
stored_nodes-IsMap ((j, n) ∷ d) (fresh, h) = (get-stored_nodes d j fresh, stored_nodes-IsMap d h)

-- What encoding/json does at the types of the source.
pub record IsTreeJson {Raw : Type 0} (json : TreeJson Raw) : Type 0 where
  pub messages_back : IsMessageJson json.messages
  pub tree_back : IsReadAs json.tree (λ t. t)

module _ {Raw : Type 0} (json : TreeJson Raw) (v : IsTreeJson json) where
  node_back :
      (k : String) (n : Node)
      → (sn : SerializedNode Raw) × (marshal_node json (k, n) ≡ ok sn)
        × (unmarshal_node json sn ≡ ok (stored_node n))
  unfolding marshal_node serialized_node unmarshal_node node_of stored_node
  node_back k n =
      let (r, w, b) = marshal_message-unmarshal_message json.messages v.messages_back n.message in
      (serialized_node json n r, rw w refl, rw b refl)

  nodes_back :
      (d : Dict Node)
      → IsMap d
      → ((k : String) (n : Node) → get d k ≡ some n → n.id ≡ k)
      → (sns : List (SerializedNode Raw)) × (each (marshal_node json) d ≡ ok sns)
        × ((m : Dict Node) → read_nodes json sns m ≡ (ok tt, put_all m (stored_nodes d)))
  unfolding each read_nodes put_all stored_nodes IsMap
  nodes_back [] h keyed = ([], refl, λ m. refl)
  nodes_back ((k, n) ∷ d) (fresh, h) keyed =
      let (sn, w, b) = node_back k n in
      let (sns, w', b') = nodes_back d h (λ j x e. keyed j x (get-later k j n x d fresh e)) in
      (
        sn ∷ sns,
        rw (w, w') refl,
        λ m.
            rw b (b' (put m n.id (stored_node n)))
            ∙ ap (λ i. (ok tt, put_all (put m i (stored_node n)) (stored_nodes d)))
                (keyed k n (get-first k n d)),
      )

  module _ {W : Type 0} where
    fill-serialized :
        (sns : List (SerializedNode Raw)) (t u : Tree W)
        → IsStored t
        → read_nodes json sns [] ≡ (ok tt, put_all [] (stored_nodes t.nodes))
        → fill json (serialized json sns t) u ≡ (ok tt, stored_tree t u.wal)
    unfolding fill serialized
    fill-serialized sns t u s e =
        rw
          (
            e,
            put_all_id t.children s.children_map,
            put_all_id t.children s.children_map,
            put_all_id t.branches s.branches_map,
            put_all_id t.branches s.branches_map,
            put_all_id t.checkpoints s.checkpoints_map,
            put_checkpoints-eq t.checkpoints [] s.checkpoints_map s.saved_keyed,
            put_all_id t.checkpoints s.checkpoints_map,
            put_all_id (stored_nodes t.nodes) (stored_nodes-IsMap t.nodes s.nodes_map),
          )
          refl

    -- MarshalJSON of a tree that can be stored succeeds, and UnmarshalJSON of what it gives makes
    -- any tree the stored one, with the log of the receiver.
    pub marshal_json-unmarshal_json :
        (t u : Tree W)
        → IsTree t
        → IsStored t
        → (r : Raw) × (marshal_json json t ≡ ok r)
          × (unmarshal_json json r u ≡ (ok tt, stored_tree t u.wal))
    unfolding marshal_json unmarshal_json
    marshal_json-unmarshal_json t u tree stored =
        let (sns, w, b) = nodes_back t.nodes stored.nodes_map tree.keyed in
        let (r, w', b') = v.tree_back (serialized json sns t) in
        (r, rw (w, and_then) w', rw b' (fill-serialized sns t u stored (b [])))

    -- In every tree that calls reach from a new tree, where encoding/json reads back what it
    -- wrote, MarshalJSON succeeds, and UnmarshalJSON of its text into any tree succeeds and
    -- makes that tree the written one, with the bytes of its files left out and with the log of
    -- the receiver.
    pub Reached-unmarshal_json :
        ⦃log : Wal W⦄ (t u : Tree W)
        → Reached t
        → (r : Raw) × (marshal_json json t ≡ ok r)
          × (unmarshal_json json r u ≡ (ok tt, stored_tree t u.wal))
    Reached-unmarshal_json t u r =
        marshal_json-unmarshal_json t u (Reached-IsTree r) (Reached-IsStored r)
