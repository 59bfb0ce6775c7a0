-- ===== src/Controllers/Health/Report.antt =====
-- What the report on the owned jobs says.
use backup_maker_controller.Prelude.{
  String, ◌≡◌, refl, arith, Bool, true, false, not, ◌&&◌, Option, none, some, List, [], ◌∷◌, ◌++◌,
  any, any-snoc, Fallible, gives, fails, Res, ok, err, panic, if◌then◌else◌,
}
use backup_maker_controller.Libs.{Libs}
use backup_maker_controller.Api.ChildReference.{ChildrenReferences, JobHealthStatus, get_gvk}
use backup_maker_controller.Integration.{SupportedJobResourceType}
use backup_maker_controller.Controllers.Health.{
  HealthReport, is_ignored, answer_of, round, collect, create_owned_references_health_report,
}

abbrev pub is_none : {A : Type 0} → Option A → Bool
is_none none = true
is_none (some a) = false

-- The verdict is healthy exactly if there is no error and no entry failed.
abbrev pub IsJust : Res HealthReport → Type 0
IsJust (ok r) =
    r.healthy ≡ (is_none r.error && not (any (λ (s : JobHealthStatus). s.failed) r.report))
IsJust (err e) = Unit
IsJust panic = Unit

module _ (L : Libs) (supported : List SupportedJobResourceType) (namespace : String) where
  round-IsJust :
      (answer : Res (Fallible JobHealthStatus)) (report : List JobHealthStatus) (healthy : Bool)
      (next : List JobHealthStatus → Bool → Res HealthReport)
      → ((report' : List JobHealthStatus) (healthy' : Bool)
          → healthy' ≡ not (any (λ (s : JobHealthStatus). s.failed) report')
          → IsJust (next report' healthy'))
      → healthy ≡ not (any (λ (s : JobHealthStatus). s.failed) report)
      → IsJust (round L supported namespace answer report healthy next)
  unfolding round
  round-IsJust (ok (gives status)) report healthy next all h =
      all (report ++ status ∷ []) (if status.failed then false else healthy)
        (ground (arith, any-snoc (λ (s : JobHealthStatus). s.failed) report status))
  round-IsJust (ok (fails e)) report healthy next all h =
      ignored (is_ignored L supported namespace e)
    where
      ignored :
          (b : Bool)
          → IsJust (
              if b
              then next report healthy
              else ok (record { report = report; healthy = false; error = some e }))
      ignored true = all report healthy h
      ignored false = refl
  round-IsJust (err e) report healthy next all h = tt
  round-IsJust panic report healthy next all h = tt

  collect-IsJust :
      (report : List JobHealthStatus) (healthy : Bool) (refs : ChildrenReferences)
      → healthy ≡ not (any (λ (s : JobHealthStatus). s.failed) report)
      → IsJust (collect L supported namespace report healthy refs)
  unfolding collect
  collect-IsJust report healthy [] h = ground arith
  collect-IsJust report healthy (ref ∷ refs) h =
      round-IsJust (answer_of L supported namespace (get_gvk ref) ref) report healthy
        (λ r h. collect L supported namespace r h refs) (λ r h e. collect-IsJust r h refs e) h

  -- Unless it panics, the report calls the resource healthy exactly if no reference ended it with an
  -- error and no job of the report failed.
  pub create_owned_references_health_report-IsJust :
      (refs : ChildrenReferences)
      → IsJust (create_owned_references_health_report L supported namespace refs)
  unfolding create_owned_references_health_report
  create_owned_references_health_report-IsJust refs = collect-IsJust [] true refs refl

-- The report on a resource that owns nothing.
abbrev pub nothing_seen : HealthReport
nothing_seen = record { report = []; healthy = true; error = none }

pub report_on_nothing :
    (L : Libs) (supported : List SupportedJobResourceType) (namespace : String)
    → create_owned_references_health_report L supported namespace [] ≡ ok nothing_seen
unfolding create_owned_references_health_report collect
report_on_nothing L supported namespace = refl
