-- ===== src/Api/Register/Known.antt =====
-- What a scheme knows after the start of the process.
use backup_maker_controller.Prelude.{◌≡◌, ◌∙◌, refl, List, [], ◌∷◌, All, Go, ok}
use backup_maker_controller.Kube.{GroupVersionKind}
use backup_maker_controller.Api.Register.{
  GroupVersion, KnownType, known_types, cluster_backup_procedure_template,
  cluster_backup_procedure_template_list, requested_backup_action, requested_backup_action_list,
  scheduled_backup, scheduled_backup_list, Schemes, scheme_group_version, kind_in, add_known_types,
  add_to_scheme, add_clientset_to_scheme, init_clientset_scheme, init_controller_scheme,
}

-- What apimachinery documents: a scheme knows the types that are added, adding the types of metav1
-- forgets none, a builder with one function runs it, and `Must` returns where there is no error.
pub record IsLawful (M : Schemes) : Type 1 where
  pub added :
      (gv : GroupVersion) (ts : List KnownType) (s : M.Scheme)
      → All (λ (t : KnownType). M.recognizes (kind_in gv t) (M.add_known_types gv ts s)) ts
  pub kept :
      (gv : GroupVersion) (g : GroupVersionKind) (s : M.Scheme)
      → M.recognizes g s
      → M.recognizes g (M.add_to_group_version gv s)
  pub one : (f : Go M.Scheme (Unit {0})) (s : M.Scheme) → M.add_all (f ∷ []) s ≡ f s
  pub must_ok :
      (f : Go M.Scheme (Unit {0})) (s t : M.Scheme) → f s ≡ (ok tt, t) → M.must f s ≡ (ok tt, t)

module _ (M : Schemes) (W : IsLawful M) where
  abbrev pub Knows : M.Scheme → Type 0
  Knows s = (t : KnownType) → M.recognizes (kind_in scheme_group_version t) s

  add_known_types-Knows :
      (s : M.Scheme) → (s' : M.Scheme) × (add_known_types M s ≡ (ok tt, s')) × Knows s'
  unfolding add_known_types
  add_known_types-Knows s =
      let (a, (b, (c, (d, (e, (f, _)))))) = W.added scheme_group_version known_types s in
      (
        _,
        refl,
        λ t.
            W.kept scheme_group_version (kind_in scheme_group_version t) _
              (elim t
                as (λ (k : KnownType).
                  M.recognizes (kind_in scheme_group_version k)
                    (M.add_known_types scheme_group_version known_types s)) [
                      | cluster_backup_procedure_template ↦ a
                      | cluster_backup_procedure_template_list ↦ b
                      | requested_backup_action ↦ c
                      | requested_backup_action_list ↦ d
                      | scheduled_backup ↦ e
                      | scheduled_backup_list ↦ f
                    ]),
      )

  -- A scheme that has the types of this package added knows each of the six, and no error is returned.
  pub add_to_scheme-Knows :
      (s : M.Scheme) → (s' : M.Scheme) × (add_to_scheme M s ≡ (ok tt, s')) × Knows s'
  unfolding add_to_scheme
  add_to_scheme-Knows s =
      let (s', same, knows) = add_known_types-Knows s in
      (s', W.one (add_known_types M) s ∙ same, knows)

  -- The scheme of the generated client set knows the six types after `init`, which does not panic.
  pub init_clientset_scheme-Knows :
      (s : M.Scheme) → (s' : M.Scheme) × (init_clientset_scheme M s ≡ (ok tt, s')) × Knows s'
  unfolding init_clientset_scheme add_clientset_to_scheme
  init_clientset_scheme-Knows s =
      let before = M.add_to_group_version (record { group = ""; version = "v1" }) s in
      let (s', same, knows) = add_to_scheme-Knows before in
      (s', W.must_ok _ before s' (W.one (add_to_scheme M) before ∙ same), knows)

  -- Where the types of client-go are added without an error, the scheme of the controller knows the six
  -- types after `init`, which does not panic.
  pub init_controller_scheme-Knows :
      (add_client_go : Go M.Scheme (Unit {0})) (s t : M.Scheme)
      → add_client_go s ≡ (ok tt, t)
      → (s' : M.Scheme) × (init_controller_scheme M add_client_go s ≡ (ok tt, s')) × Knows s'
  unfolding init_controller_scheme
  init_controller_scheme-Knows add_client_go s t done =
      let (s', same, knows) = add_to_scheme-Knows t in
      (s', rw (W.must_ok add_client_go s t done) (W.must_ok (add_to_scheme M) t s' same), knows)
