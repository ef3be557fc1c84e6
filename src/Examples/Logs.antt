-- ===== src/Examples/Logs.antt =====
-- A committed transaction of agent/store/memwal that a client tries to abort.
use graph_agent_dev_kit.Common.{
  ℕ, ◌≤◌, String, ◌==◌, Bool-cases, inl, inr, eq_of_test, eq_refl, false, some, List, [], ◌∷◌, ok,
  ◌≡◌, ◌⊎◌, refl, true, sym, elem, arith,
}
use graph_agent_dev_kit.Common.Dict.{get}
use graph_agent_dev_kit.Types.Content.{new_user_message}
use graph_agent_dev_kit.Types.Node.{active}
use graph_agent_dev_kit.Types.Wal.{TxOp}
use graph_agent_dev_kit.Tree.State.{add_node_op, fresh_node}
use graph_agent_dev_kit.Memwal.{MemWal, TxState, tx_id, replay, recover}
use graph_agent_dev_kit.Memwal.Issued.{IsIssued, IsCommitted}
use graph_agent_dev_kit.Memwal.Durable.{run, commits, aborts, begins, committed_stays}

abbrev logged : TxOp
logged = add_node_op (fresh_node "a" "r" (new_user_message "hello") active 1 "main" 1)

abbrev closed_tx : TxState
closed_tx = record { ops = logged ∷ []; committed = true; aborted = false }

abbrev log : MemWal
log = record { txns = (tx_id 1, closed_tx) ∷ []; next_id = 1 }

log-IsIssued : IsIssued log
unfolding get
log-IsIssued = record { numbered = λ id tx e. go id e (Bool-cases (tx_id 1 == id)) }
  where
    go :
        (id : String) {tx : TxState}
        → get log.txns id ≡ some tx
        → ((tx_id 1 == id) ≡ true) ⊎ ((tx_id 1 == id) ≡ false)
        → (k : ℕ) × (id ≡ tx_id k) × (k ≤ log.next_id)
    go id e (inl same) = (1, sym (eq_of_test (tx_id 1) id same), omega arith)
    go id e (inr other) = absurd (cc (rw (other, get) at e))

log-IsCommitted : IsCommitted (tx_id 1) (logged ∷ []) log
unfolding get
log-IsCommitted = record {
  tx = closed_tx;
  found = ground (arith, eq_refl (tx_id 1));
  committed = refl;
  same = refl;
}

-- An abort, a new transaction, and a second commit.
committed_stays_example :
    (ids : List String) × ((replay
        (tx_id 1)
        (run log (aborts (tx_id 1) ∷ begins ∷ commits (tx_id 1) ∷ []))).0
      ≡ ok (logged ∷ []))
    × ((recover (run log (aborts (tx_id 1) ∷ begins ∷ commits (tx_id 1) ∷ []))).0 ≡ ok ids)
    × (elem (tx_id 1) ids ≡ true)
committed_stays_example =
    committed_stays log (aborts (tx_id 1) ∷ begins ∷ commits (tx_id 1) ∷ []) (tx_id 1) (logged ∷ [])
      (omega arith) log-IsIssued log-IsCommitted
