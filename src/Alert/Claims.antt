-- ===== src/Alert/Claims.antt =====
-- src/app/state.cpp: an alert can be acted on once, and only while it is the newest of its kind.
use snapback.Prelude.{not, ◌&&◌, ℕ, ◌≡◌, ◌≢◌, true, false, List, [], ◌∷◌, arith}
use snapback.Prelude.Int.{ℤ, pos, ◌≤ℤ◌, ◌<ℤ◌, +ℤ_parts, eq_of_parts}
use snapback.Alert.Routing.{AlertEvent, alert_event_index, AlertRoute, visible}
use snapback.Alert.Ids.{
  AlertIds, is_no_action, no_ids, issue_alert_id, outstanding_alert_id, claim_alert_action,
}

-- No id is ahead of the counter, and no two kinds share an outstanding id.
pub record IsSound (s : AlertIds) : Type 0 where
  pub counted : pos 0 ≤ℤ s.next_alert_id
  pub behind : (i : ℕ) → s.actionable_alert_ids i ≤ℤ s.next_alert_id
  pub distinct :
      (i j : ℕ)
      → i ≢ j
      → pos 0 <ℤ s.actionable_alert_ids i
      → s.actionable_alert_ids i ≢ s.actionable_alert_ids j

pub data Op : Type 0 where
  issues : AlertEvent → AlertRoute → Op
  claims : AlertEvent → ℤ → Op

unfoldable pub apply_op : AlertIds → Op → AlertIds
apply_op s (issues e r) = (issue_alert_id s e r).0
apply_op s (claims e id) = (claim_alert_action s e id).0

unfoldable pub apply_ops : AlertIds → List Op → AlertIds
apply_ops s [] = s
apply_ops s (op ∷ ops) = apply_ops (apply_op s op) ops

no_ids-IsSound : IsSound no_ids
unfolding no_ids
no_ids-IsSound = record {
  counted = omega arith;
  behind = λ i. omega arith;
  distinct = λ i j ne h. absurd (omega arith);
}

apply_op-IsSound : (s : AlertIds) (op : Op) → IsSound s → IsSound (apply_op s op)
unfolding apply_op issue_alert_id claim_alert_action
apply_op-IsSound s (issues e r) h = record {
  counted = ground (arith, h.counted, +ℤ_parts s.next_alert_id (pos 1));
  behind = λ i. ground (arith, h.counted, h.behind i, +ℤ_parts s.next_alert_id (pos 1));
  distinct = λ i j ne p. ground (
    arith,
    h.counted,
    h.behind i,
    h.behind j,
    h.distinct i j ne,
    +ℤ_parts s.next_alert_id (pos 1),
  );
}
apply_op-IsSound s (claims e id) h = record {
  counted = ground (arith, h.counted);
  behind = λ i. ground (arith, h.counted, h.behind i);
  distinct = λ i j ne p. ground (arith, h.behind i, h.behind j, h.distinct i j ne);
}

-- An id that has been issued and that no click can claim any more.
pub record IsRetired (s : AlertIds) (id : ℤ) : Type 0 where
  pub issued : (pos 0 <ℤ id) × (id ≤ℤ s.next_alert_id)
  pub absent : (i : ℕ) → s.actionable_alert_ids i ≢ id

apply_op-IsRetired :
    (s : AlertIds) (op : Op) (id : ℤ) → IsRetired s id → IsRetired (apply_op s op) id
unfolding apply_op issue_alert_id claim_alert_action
apply_op-IsRetired s (issues e r) id h = record {
  issued = ground (arith, h.issued, +ℤ_parts s.next_alert_id (pos 1));
  absent = λ i. ground (arith, h.issued, h.absent i, +ℤ_parts s.next_alert_id (pos 1));
}
apply_op-IsRetired s (claims e other) id h = record {
  issued = ground (arith, h.issued);
  absent = λ i. ground (arith, h.issued, h.absent i);
}

apply_ops-IsRetired :
    (s : AlertIds) (ops : List Op) (id : ℤ) → IsRetired s id → IsRetired (apply_ops s ops) id
unfolding apply_ops
apply_ops-IsRetired s [] id h = h
apply_ops-IsRetired s (op ∷ ops) id h =
    apply_ops-IsRetired (apply_op s op) ops id (apply_op-IsRetired s op id h)

pub apply_ops-IsSound : (s : AlertIds) (ops : List Op) → IsSound s → IsSound (apply_ops s ops)
unfolding apply_ops
apply_ops-IsSound s [] h = h
apply_ops-IsSound s (op ∷ ops) h = apply_ops-IsSound (apply_op s op) ops (apply_op-IsSound s op h)

claim_of_IsRetired :
    (s : AlertIds) (e : AlertEvent) (id : ℤ)
    → IsRetired s id
    → claim_alert_action s e id ≡ (s, false)
unfolding claim_alert_action
claim_of_IsRetired s e id h = ground (
  arith,
  h.absent (alert_event_index e),
  eq_of_parts (s.actionable_alert_ids (alert_event_index e)) id,
)

claimed-IsRetired :
    (s t : AlertIds) (e : AlertEvent) (id : ℤ)
    → IsSound s
    → claim_alert_action s e id ≡ (t, true)
    → IsRetired t id
unfolding claim_alert_action
claimed-IsRetired s t e id h claimed = record {
  issued = ground (arith, h.behind (alert_event_index e));
  absent = λ i. ground (
    arith,
    h.distinct (alert_event_index e) i,
    eq_of_parts (s.actionable_alert_ids (alert_event_index e)) id,
  );
}

-- For alerts that were issued and claimed from the start: once a click has claimed one, no later click on
-- it does anything, of whatever kind it is said to be and whatever is issued or claimed between.
pub claim_once :
    (start : List Op) (later : List Op) (t : AlertIds) (e f : AlertEvent) (id : ℤ)
    → claim_alert_action (apply_ops no_ids start) e id ≡ (t, true)
    → claim_alert_action (apply_ops t later) f id ≡ (apply_ops t later, false)
claim_once start later t e f id claimed = claim_of_IsRetired (apply_ops t later) f id (
    apply_ops-IsRetired t later id (
      claimed-IsRetired (apply_ops no_ids start) t e id
        (apply_ops-IsSound no_ids start no_ids-IsSound) claimed))

-- Whatever was issued and claimed before: issuing an alert retires the one of its kind that was
-- outstanding; and what it issues can be claimed, for this kind, exactly when the alert is visible and has
-- a destination.
pub issue_supersedes :
    (ops : List Op) (e : AlertEvent) (r : AlertRoute) (old : ℤ)
    → outstanding_alert_id (apply_ops no_ids ops) e ≡ old
    → let s = apply_ops no_ids ops in
      ((claim_alert_action (issue_alert_id s e r).0 e old).1 ≡ false)
      × ((claim_alert_action (issue_alert_id s e r).0 e (issue_alert_id s e r).1).1
          ≡ (visible r && not (is_no_action r.action)))
unfolding issue_alert_id claim_alert_action outstanding_alert_id
issue_supersedes ops e r old held =
    let h = apply_ops-IsSound no_ids ops no_ids-IsSound in
    let s = apply_ops no_ids ops in
    ground (arith, h.counted, h.behind (alert_event_index e), +ℤ_parts s.next_alert_id (pos 1))
