-- ===== src/Legacy/Polls/Keeps.antt =====
-- What the result of a task changes in the table of payouts.
use mathlib.Core.Path.{subst}
use shkeeper_io.Prelude.{
  ◌≡◌, refl, ap, Bool, true, false, not, Option, none, some, List, [], ◌∷◌, ◌++◌, if◌then◌else◌,
}
use shkeeper_io.Prelude.Json.{
  Value, null, bool, num, float, text, list, dict, Fields, get, truthy, value_eq,
}
use shkeeper_io.Context.{Context}
use shkeeper_io.Legacy.{Payout}
use shkeeper_io.Legacy.Polls.{
  failed, add_txids, with_result, update_payout, joined, update_from_task, txids_of, new_txids,
  is_text, result_by_dest,
}

module _ ⦃ctx : Context⦄ where
  -- the payout is the same but for its status and its error, and has no fewer transactions
  pub record Keeps (task_id : Value) (p q : Payout) : Type 0 where
    pub id : q.id ≡ p.id
    pub crypto : q.crypto ≡ p.crypto
    pub amount : q.amount ≡ p.amount
    pub dest_addr : q.dest_addr ≡ p.dest_addr
    pub external_id : q.external_id ≡ p.external_id
    pub added : List Value
    pub transactions : q.transactions ≡ p.transactions ++ added
    pub untouched : value_eq p.task_id task_id ≡ false → q ≡ p

  -- row by row
  unfoldable pub AllKeep : Value → List Payout → List Payout → Type 0
  AllKeep task_id [] [] = Unit
  AllKeep task_id (p ∷ ps) (q ∷ qs) = Keeps task_id p q × AllKeep task_id ps qs
  AllKeep task_id _ _ = ⊥

  append_none : (xs : List Value) → xs ≡ xs ++ []
  append_none [] = refl
  append_none (x ∷ xs) = ap (λ (ys : List Value). x ∷ ys) (append_none xs)

  module _ (task_id : Value) where
    same : (p : Payout) → Keeps task_id p p
    same p = record {
      id = refl;
      crypto = refl;
      amount = refl;
      dest_addr = refl;
      external_id = refl;
      added = [];
      transactions = append_none p.transactions;
      untouched = λ h. refl;
    }

    -- a payout of the task, at most failed or with more transactions
    Updated : Payout → Option Payout → Type 0
    Updated p none = Unit
    Updated p (some q) = Keeps task_id p q

    failed-Updated :
        (v : Value) (p : Payout) → value_eq p.task_id task_id ≡ true → Updated p (some (failed v p))
    unfolding failed Updated
    failed-Updated v p t = record {
      id = refl;
      crypto = refl;
      amount = refl;
      dest_addr = refl;
      external_id = refl;
      added = [];
      transactions = append_none p.transactions;
      untouched = λ h. absurd (cc);
    }

    either-Updated :
        (p : Payout) (b : Bool) (x y : Option Payout)
        → Updated p x
        → Updated p y
        → Updated p (if b then x else y)
    either-Updated p true x y h k = h
    either-Updated p false x y h k = k

    add_txids-Updated :
        (p : Payout) (o : Option (List Value))
        → value_eq p.task_id task_id ≡ true
        → Updated p (add_txids p o)
    unfolding add_txids Updated
    add_txids-Updated p none t = tt
    add_txids-Updated p (some txids) t = record {
      id = refl;
      crypto = refl;
      amount = refl;
      dest_addr = refl;
      external_id = refl;
      added = new_txids p.transactions txids;
      transactions = refl;
      untouched = λ h. absurd (cc);
    }

    with_result-Updated :
        (p : Payout) (o : Option Fields)
        → value_eq p.task_id task_id ≡ true
        → Updated p (with_result p o)
    unfolding with_result Updated
    with_result-Updated p none t = same p
    with_result-Updated p (some r) t = either-Updated p (not (truthy (dict r))) _ _ (same p) (
        either-Updated p (is_text "error" (get "status" r)) _ _ (failed-Updated (dict r) p t)
          (add_txids-Updated p (txids_of r) t))

    update-Updated :
        (status results : Value) (p : Payout)
        → value_eq p.task_id task_id ≡ true
        → Updated p (update_payout status results p)
    unfolding update_payout
    update-Updated status (list vs) p t =
        either-Updated p (is_text "SUCCESS" status) _ _
          (with_result-Updated p (result_by_dest p.dest_addr vs) t) (failed-Updated (list vs) p t)
    update-Updated status null p t = failed-Updated null p t
    update-Updated status (bool b) p t = failed-Updated (bool b) p t
    update-Updated status (num n) p t = failed-Updated (num n) p t
    update-Updated status (float s) p t = failed-Updated (float s) p t
    update-Updated status (text s) p t = failed-Updated (text s) p t
    update-Updated status (dict fs) p t = failed-Updated (dict fs) p t

    row-Updated :
        (status results : Value) (p : Payout) (b : Bool)
        → value_eq p.task_id task_id ≡ b
        → Updated p (if b then update_payout status results p else some p)
    unfolding Updated
    row-Updated status results p true t = update-Updated status results p t
    row-Updated status results p false t = same p

    -- what an update leaves, where it returns
    Leaves : List Payout → Option (List Payout) → Type 0
    Leaves table none = Unit
    Leaves table (some after) = AllKeep task_id table after

    joined-Leaves :
        (p : Payout) (table : List Payout) (o : Option Payout) (rest : Option (List Payout))
        → Updated p o
        → Leaves table rest
        → Leaves (p ∷ table) (joined o rest)
    unfolding Leaves AllKeep Updated
    joined-Leaves p table (some q) (some rest) u l = (u, l)
    joined-Leaves p table (some q) none u l = tt
    joined-Leaves p table none rest u l = tt

    update-Leaves :
        (response : Fields) (table : List Payout)
        → Leaves table (update_from_task response task_id table)
    unfolding update_from_task Leaves AllKeep
    update-Leaves response [] = tt
    update-Leaves response (p ∷ table) =
        joined-Leaves p table _ (update_from_task response task_id table)
          (row-Updated (get "status" response) (get "result" response) p
            (value_eq p.task_id task_id) refl)
          (update-Leaves response table)

    -- The result of a task, whatever it is, keeps each payout's identity, amount and destination and
    -- all its transactions, and leaves the payouts of other tasks as they are.
    pub task_update-AllKeep :
        (response : Fields) (table after : List Payout)
        → update_from_task response task_id table ≡ some after
        → AllKeep task_id table after
    unfolding Leaves
    task_update-AllKeep response table after h =
        subst (Leaves table) h (update-Leaves response table)
