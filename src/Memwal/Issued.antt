-- ===== src/Memwal/Issued.antt =====
-- The ids of the in-memory log, and what single writes do to its committed transactions.
use Prim.Native.Nat.{◌^◌, ◌%◌}
use text.Mathlib.TextLemmas.{append_cancel_left}
use graph_agent_dev_kit.Common.{
  ℕ, suc, ◌+◌, ◌≤◌, ◌<◌, String, true, some, List, ◌≡◌, subst, sym, ◌∙◌, ◌≢◌, arith, eq_iff, ◌==◌,
  inl, inr, Bool-cases,
}
use graph_agent_dev_kit.Common.Dict.{get, put, get-put, get-put_ne}
use graph_agent_dev_kit.Common.Decimal.{decimal_inj}
use graph_agent_dev_kit.Types.Wal.{TxOp}
use graph_agent_dev_kit.Memwal.{MemWal, TxState, tx_id, begin}

-- Every transaction was begun by this log.
pub record IsIssued (w : MemWal) : Type 0 where
  pub numbered :
      (id : String) (tx : TxState)
      → get w.txns id ≡ some tx
      → (k : ℕ) × (id ≡ tx_id k) × (k ≤ w.next_id)

-- `id` is a committed transaction with the operations `ops`.
pub record IsCommitted (id : String) (ops : List TxOp) (w : MemWal) : Type 0 where
  pub tx : TxState
  pub found : get w.txns id ≡ some tx
  pub committed : tx.committed ≡ true
  pub same : tx.ops ≡ ops

tx_id_inj : (m n : ℕ) → tx_id m ≡ tx_id n → m ≡ n
unfolding tx_id
tx_id_inj m n h = decimal_inj (append_cancel_left "tx-" _ _ h)

pub next_id-begin : (w : MemWal) → suc w.next_id < 2 ^ 64 → (begin w).1.next_id ≡ suc w.next_id
unfolding begin
next_id-begin w h = omega arith

-- A text that is the number `next`, or a transaction that was there.
put-numbered :
    (w : MemWal) (next : ℕ) (new : TxState)
    → IsIssued w
    → w.next_id ≤ next
    → (id : String) (tx : TxState) → get (put w.txns (tx_id next) new) id ≡ some tx
    → (k : ℕ) × (id ≡ tx_id k) × (k ≤ next)
put-numbered w next new v le id tx e = elim (Bool-cases (tx_id next == id)) [
  | inl same ↦ (next, sym ((eq_iff _ _).0 same), omega arith)
  | inr other ↦
      let (k, named, below) =
        v.numbered id tx (ground (arith, get-put w.txns (tx_id next) id new)) in
      (k, named, omega arith)
]

pub begin-IsIssued : (w : MemWal) → IsIssued w → suc w.next_id < 2 ^ 64 → IsIssued (begin w).1
unfolding begin
begin-IsIssued w v h = record {
  numbered = put-numbered w ((w.next_id + 1) % 2 ^ 64) _ v (omega arith);
}

-- Writing back a transaction that is there.
pub store-IsIssued :
    (w : MemWal) (id : String) (tx tx' : TxState)
    → get w.txns id ≡ some tx
    → IsIssued w
    → IsIssued (record w { txns = put w.txns id tx' })
store-IsIssued w id tx tx' e v =
    let (k, named, below) = v.numbered id tx e in
    record {
      numbered =
          subst
            (λ i.
              (j : String) (t : TxState)
              → get (put w.txns i tx') j ≡ some t
              → (n : ℕ) × (j ≡ tx_id n) × (n ≤ w.next_id))
            (sym named)
            (λ j t q. elim (Bool-cases (tx_id k == j)) [
              | inl same ↦ (k, sym ((eq_iff _ _).0 same), below)
              | inr other ↦ v.numbered j t (ground (arith, get-put w.txns (tx_id k) j tx'))
            ]);
    }

pub store-IsCommitted :
    (w : MemWal) (id j : String) (tx tx' : TxState) {ops : List TxOp}
    → get w.txns id ≡ some tx
    → (tx.committed ≡ true → (tx'.committed ≡ true) × (tx'.ops ≡ tx.ops))
    → IsCommitted j ops w
    → IsCommitted j ops (record w { txns = put w.txns id tx' })
store-IsCommitted w id j tx tx' e keep c = elim (Bool-cases (id == j)) [
  | inl same ↦
      let was : tx ≡ c.tx = ground (arith, eq_iff id j, c.found) in
      record {
        tx = tx';
        found = ground (arith, get-put w.txns id j tx');
        committed = (keep (ground (arith, c.committed))).0;
        same = ground (arith, (keep (ground (arith, c.committed))).1, c.same);
      }
  | inr other ↦ record {
    tx = c.tx;
    found = ground (arith, get-put w.txns id j tx', c.found);
    committed = c.committed;
    same = c.same;
  }
]

pub begin-IsCommitted :
    (w : MemWal) (id : String) {ops : List TxOp}
    → suc w.next_id < 2 ^ 64
    → IsIssued w
    → IsCommitted id ops w
    → IsCommitted id ops (begin w).1
unfolding begin
begin-IsCommitted w id h v c =
    let (k, named, below) = v.numbered id c.tx c.found in
    let next = (w.next_id + 1) % 2 ^ 64 in
    let other : tx_id next ≢ id = λ p. omega (arith, tx_id_inj next k (p ∙ named)) in
    record {
      tx = c.tx;
      found = get-put_ne w.txns (tx_id next) id _ other ∙ c.found;
      committed = c.committed;
      same = c.same;
    }
