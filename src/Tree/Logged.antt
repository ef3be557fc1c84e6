-- ===== src/Tree/Logged.antt =====
-- The write-ahead step of agent/tree/tree.go on the in-memory log.
use Prim.Native.Nat.{◌%◌, ◌^◌}
use graph_agent_dev_kit.Common.{
  ℕ, ◌+◌, String, ◌||◌, true, false, Option, some, [], ◌∷◌, ◌++◌, Result, ok, err, Result-cases,
  inl, inr, ◌≡◌, refl, sym, ap, ◌∙◌, subst,
}
use graph_agent_dev_kit.Common.Dict.{get, put, get-put_self}
use graph_agent_dev_kit.Types.Content.{Message}
use graph_agent_dev_kit.Types.Errors.{Error}
use graph_agent_dev_kit.Types.Node.{Node, active}
use graph_agent_dev_kit.Types.Wal.{TxOp}
use graph_agent_dev_kit.Memwal.{MemWal, TxState, tx_id, begin, append, commit, mem_wal}
use graph_agent_dev_kit.Memwal.Issued.{IsCommitted}
use graph_agent_dev_kit.Tree.State.{
  Tree, fresh_node, open_parent, attach, link, add_node_op, log_node, write_log, wal_add_node,
}
use graph_agent_dev_kit.Tree.Grow.{add_child, persist}

append-open :
    (id : String) (op : TxOp) (w : MemWal) (tx : TxState)
    → get w.txns id ≡ some tx
    → (tx.committed || tx.aborted) ≡ false
    → append id op w
      ≡ (ok tt, record w { txns = put w.txns id (record tx { ops = tx.ops ++ op ∷ [] }) })
unfolding append
append-open id op w tx e h = rw (e, h) refl

commit-open :
    (id : String) (w : MemWal) (tx : TxState)
    → get w.txns id ≡ some tx
    → tx.aborted ≡ false
    → commit id w ≡ (ok tt, record w { txns = put w.txns id (record tx { committed = true }) })
unfolding commit
commit-open id w tx e h = rw (e, h) refl

-- The three calls of a write leave a committed transaction with the one operation.
log_node-IsCommitted :
    (n : Node) (w : MemWal)
    → (id : String) × (u : MemWal) × (log_node n w ≡ (ok tt, u))
      × IsCommitted id (add_node_op n ∷ []) u
unfolding log_node begin
log_node-IsCommitted n w =
    let next = (w.next_id + 1) % 2 ^ 64 in
    let id = tx_id next in
    let empty : TxState = record { ops = []; committed = false; aborted = false } in
    let one : TxState = record { ops = add_node_op n ∷ []; committed = false; aborted = false } in
    let w1 : MemWal = record { txns = put w.txns id empty; next_id = next } in
    let w2 : MemWal = record { txns = put w1.txns id one; next_id = next } in
    let w3 : MemWal = record {
      txns = put w2.txns id (record one { committed = true });
      next_id = next;
    } in
    let appended = append-open id (add_node_op n) w1 empty (get-put_self w.txns id empty) refl in
    let committed = commit-open id w2 one (get-put_self w1.txns id one) refl in
    (
      id,
      w3,
      rw (appended, committed) refl,
      record {
        tx = record one { committed = true };
        found = get-put_self w2.txns id _;
        committed = refl;
        same = refl;
      },
    )

abbrev wal_of : Result Error Node × Tree MemWal → Option MemWal
wal_of r = r.1.wal

persist-logged :
    (n : Node) (t : Tree MemWal) (w : MemWal)
    → t.wal ≡ some w
    → (id : String) × (u : MemWal) × (persist n t ≡ (ok n, link n (record t { wal = some u })))
      × IsCommitted id (add_node_op n ∷ []) u
unfolding persist wal_add_node write_log
persist-logged n t w e =
    let (id, u, run, committed) = log_node-IsCommitted n w in
    (id, u, rw (e, write_log, run) refl, committed)

-- After a successful AddChild on a tree whose log is the in-memory one, the log holds a
-- committed transaction whose only operation is the addition of the new node.
pub add_child-logged :
    (parent_id : String) (msg : Message) (id : String) (now : ℕ) (t t' : Tree MemWal) (child : Node)
    (w : MemWal)
    → t.wal ≡ some w
    → add_child parent_id msg id now t ≡ (ok child, t')
    → (tx : String) × (u : MemWal) × (t'.wal ≡ some u) × IsCommitted tx (add_node_op child ∷ []) u
add_child-logged parent_id msg id now t t' child w e added =
    elim (Result-cases (open_parent parent_id t)) [
      | inl (p, q) ↦
          let n : Node = fresh_node id parent_id msg active (p.depth + 1) p.branch_id now in
          let (tx, u, run, committed) = persist-logged n t w e in
          let same : ◌≡◌ {A = Result Error Node × Tree MemWal}
              (ok n, link n (record t { wal = some u })) (ok child, t') =
            sym run ∙ (unfold add_child in rw q at added) in
          let node : n ≡ child = cc (ap (λ r. r.0) same) in
          (
            tx,
            u,
            sym (ap wal_of same) ∙ (unfold link attach in refl),
            subst (λ m. IsCommitted tx (add_node_op m ∷ []) u) node committed,
          )
      | inr (x, q) ↦
          let refused : ◌≡◌ {A = Result Error Node × Tree MemWal} (err x, t) (ok child, t') =
            unfold add_child in rw q at added in
          absurd (cc (ap (λ r. r.0) refused))
    ]
