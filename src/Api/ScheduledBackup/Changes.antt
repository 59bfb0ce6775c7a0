-- ===== src/Api/ScheduledBackup/Changes.antt =====
-- When a `ScheduledBackup` is left alone.
use backup_maker_controller.Prelude.{
  All, ℕ, ◌+◌, ◌*◌, ◌<◌, ◌≤◌, ◌≡◌, ◌↔◌, ◌⊎◌, refl, arith, eq_iff, true, false, List, [], ◌∷◌,
}
use backup_maker_controller.Kube.{Condition}
use backup_maker_controller.Api.ScheduledBackup.{
  ScheduledBackup, second, scan_conditions, is_being_reconciled_already,
}

-- One of the conditions is `Unknown`, and its last transition is less than 60 seconds ago.
abbrev pub HasFreshUnknown : ℕ → List Condition → Type 0
HasFreshUnknown now [] = ⊥
HasFreshUnknown now (c ∷ cs) =
    ((now < c.last_transition_time + 60 * second) × (c.status ≡ "Unknown")) ⊎ HasFreshUnknown now cs

scan_conditions_iff :
    (now : ℕ) (cs : List Condition) → (scan_conditions now cs ≡ true) ↔ HasFreshUnknown now cs
unfolding scan_conditions
scan_conditions_iff now [] = (λ h. cc, λ h. absurd h)
scan_conditions_iff now (c ∷ cs) =
    ground (arith, eq_iff c.status "Unknown", scan_conditions_iff now cs)

-- A backup counts as being reconciled exactly when one of its conditions is `Unknown` with a last
-- transition less than 60 seconds ago.
pub is_being_reconciled_already_iff :
    (now : ℕ) (sb : ScheduledBackup)
    → (is_being_reconciled_already now sb ≡ true) ↔ HasFreshUnknown now sb.status.conditions
unfolding is_being_reconciled_already
is_being_reconciled_already_iff now sb = scan_conditions_iff now sb.status.conditions

scan_conditions-eq-false :
    (now : ℕ) (cs : List Condition)
    → All (λ c. c.last_transition_time + 60 * second ≤ now) cs
    → scan_conditions now cs ≡ false
unfolding scan_conditions
scan_conditions-eq-false now [] h = refl
scan_conditions-eq-false now (c ∷ cs) h = ground (arith, scan_conditions-eq-false now cs h.1)

-- The mark runs out: once 60 seconds have passed since the last transition of every condition, the
-- backup no longer counts as being reconciled, whatever the conditions say.
pub is_being_reconciled_already_expires :
    (now : ℕ) (sb : ScheduledBackup)
    → All (λ c. c.last_transition_time + 60 * second ≤ now) sb.status.conditions
    → is_being_reconciled_already now sb ≡ false
unfolding is_being_reconciled_already
is_being_reconciled_already_expires now sb h = scan_conditions-eq-false now sb.status.conditions h
