-- ===== src/Cmd/Setup.antt =====
-- What `Run` does before it starts the manager.
use backup_maker_controller.Prelude.{
  ◌≡◌, refl, Option, none, some, List, [], ◌∷◌, Err, Fallible, gives, fails, All, Bool, String,
}
use backup_maker_controller.Cmd.Packages.{
  App, ManagerOptions, Kinds, Runtime, returned, panicked, exited, Outcome, going, ended,
  bind_outcome, AppLocker, Reconciler, Registration,
}
use backup_maker_controller.Cmd.{
  deps_of, registration, controllers, return_error, or_return, or_panic, set_up, set_up_all,
  manager_or_exit, new_manager_with, new_manager, new_kubernetes_job_resource_type,
  new_all_supported_job_resource_types, prepare,
}

-- What holds after a part of `Run`: `P` of the state, `Q` of the value in it, and an exit has the code 1.
unfoldable pub Leads : {A S : Type 0} → (S → Type 0) → (A → S → Type 0) → Outcome A × S → Type 0
Leads P Q (going a, s) = P s × Q a s
Leads P Q (ended (returned e), s) = P s
Leads P Q (ended panicked, s) = P s
Leads P Q (ended (exited n), s) = P s × (n ≡ 1)

pub bind-Leads :
    {A B S : Type 0} (P : S → Type 0) (Q : A → S → Type 0) (G : B → S → Type 0) (r : Outcome A × S)
    (f : A → S → Outcome B × S)
    → Leads P Q r
    → ((a : A) (s : S) → P s → Q a s → Leads P G (f a s))
    → Leads P G (bind_outcome r f)
unfolding Leads bind_outcome
bind-Leads P Q G (going a, s) f h g = g a s h.0 h.1
bind-Leads P Q G (ended (returned e), s) f h g = h
bind-Leads P Q G (ended panicked, s) f h g = h
bind-Leads P Q G (ended (exited n), s) f h g = h

pub going-Leads :
    {A S : Type 0} (P : S → Type 0) (Q : A → S → Type 0) (a : A) (s : S)
    → P s
    → Q a s
    → Leads P Q (going a, s)
unfolding Leads bind_outcome
going-Leads P Q a s p q = (p, q)

pub map-Leads :
    {A S : Type 0} (P P' : S → Type 0) (Q G : A → S → Type 0) (r : Outcome A × S)
    → ((s : S) → P s → P' s)
    → ((a : A) (s : S) → P s → Q a s → G a s)
    → Leads P Q r
    → Leads P' G r
unfolding Leads bind_outcome
map-Leads P P' Q G (going a, s) p f h = (p s h.0, f a s h.0 h.1)
map-Leads P P' Q G (ended (returned e), s) p f h = p s h
map-Leads P P' Q G (ended panicked, s) p f h = p s h
map-Leads P P' Q G (ended (exited n), s) p f h = (p s h.0, h.1)

module _ {T : Kinds} (R : Runtime T) where
  -- A predicate that every call keeps but `Start`, as that no controller runs.
  pub record IsIdle (P : T.State → Type 0) : Type 0 where
    pub log_level : (s : T.State) → P s → P (R.set_debug_level s)
    pub logger : (b : Bool) (s : T.State) → P s → P (R.set_logger b s)
    pub redis_made : (n a : String) (s : T.State) → P s → P (R.new_redis_client n a s).1
    pub redis_closed : (c : T.RedisClient) (s : T.State) → P s → P (R.close_redis c s)
    pub manager_made :
        (c : T.Config) (o : ManagerOptions) (s : T.State) → P s → P (R.new_manager c o s).1
    pub completed : (r : Registration T) (s : T.State) → P s → P (R.complete r s).1
    pub healthz :
        (m : T.Manager) (name : String) (s : T.State) → P s → P (R.add_healthz_check m name s).1
    pub readyz :
        (m : T.Manager) (name : String) (s : T.State) → P s → P (R.add_readyz_check m name s).1

  -- Every predicate that says nothing.
  pub nothing-IsIdle : IsIdle (λ s. Unit {0})
  nothing-IsIdle = record {
    log_level = λ s h. tt;
    logger = λ b s h. tt;
    redis_made = λ n a s h. tt;
    redis_closed = λ c s h. tt;
    manager_made = λ c o s h. tt;
    completed = λ r s h. tt;
    healthz = λ m name s h. tt;
    readyz = λ m name s h. tt;
  }

  both-IsIdle : (P G : T.State → Type 0) → IsIdle P → IsIdle G → IsIdle (λ s. P s × G s)
  both-IsIdle P G I J = record {
    log_level = λ s h. (I.log_level s h.0, J.log_level s h.1);
    logger = λ b s h. (I.logger b s h.0, J.logger b s h.1);
    redis_made = λ n a s h. (I.redis_made n a s h.0, J.redis_made n a s h.1);
    redis_closed = λ c s h. (I.redis_closed c s h.0, J.redis_closed c s h.1);
    manager_made = λ c o s h. (I.manager_made c o s h.0, J.manager_made c o s h.1);
    completed = λ r s h. (I.completed r s h.0, J.completed r s h.1);
    healthz = λ m name s h. (I.healthz m name s h.0, J.healthz m name s h.1);
    readyz = λ m name s h. (I.readyz m name s h.0, J.readyz m name s h.1);
  }

  -- What controller-runtime knows of registrations: `Complete` without an error makes one, and no call but `Start`
  -- undoes it.
  pub record IsRegister (Reg : Registration T → T.State → Type 0) : Type 0 where
    pub made :
        (r : Registration T) (s : T.State) → (R.complete r s).0 ≡ none → Reg r (R.complete r s).1
    pub stays : (r : Registration T) → IsIdle (Reg r)

  return_error-Leads :
      (P G : T.State → Type 0) (r : Option Err × T.State)
      → P r.1
      → (r.0 ≡ none → G r.1)
      → Leads P (λ _. G) (return_error R r)
  unfolding return_error Leads
  return_error-Leads P G (none, s) p g = (p, g refl)
  return_error-Leads P G (some e, s) p g = p

  or_panic-Leads :
      {A : Type 0} (P : T.State → Type 0) (r : Fallible A) (s : T.State)
      → P s
      → Leads P (λ _ _. Unit {0}) (or_panic R r s)
  unfolding or_panic Leads
  or_panic-Leads P (gives a) s p = (p, tt)
  or_panic-Leads P (fails e) s p = p

  module _ (Reg : Registration T → T.State → Type 0) (Rs : IsRegister Reg) where
    abbrev AllReg : T.Manager → List (Reconciler T) → T.State → Type 0
    AllReg mgr rs s = All (λ (r : Reconciler T). Reg (registration R mgr r) s) rs

    AllReg-IsIdle : (mgr : T.Manager) (rs : List (Reconciler T)) → IsIdle (AllReg mgr rs)
    AllReg-IsIdle mgr [] = nothing-IsIdle
    AllReg-IsIdle mgr (r ∷ rs) =
        both-IsIdle (Reg (registration R mgr r)) (AllReg mgr rs) (Rs.stays (registration R mgr r))
          (AllReg-IsIdle mgr rs)

    set_up_all-Leads :
        (P : T.State → Type 0) (I : IsIdle P) (mgr : T.Manager) (rs : List (Reconciler T))
        (s : T.State)
        → P s
        → Leads P (λ _. AllReg mgr rs) (set_up_all R mgr rs s)
    unfolding set_up_all set_up or_return
    set_up_all-Leads P I mgr [] s p = going-Leads P _ tt s p tt
    set_up_all-Leads P I mgr (r ∷ rs) s p =
        let one = registration R mgr r in
        let P' : T.State → Type 0 = λ s. P s × Reg one s in
        bind-Leads P (λ _. Reg one) (λ _. AllReg mgr (r ∷ rs)) (set_up R mgr r s)
          (λ _. set_up_all R mgr rs)
          (return_error-Leads P (Reg one) (R.complete one s) (I.completed one s p) (Rs.made one s))
          (λ _ s' p' here.
            map-Leads P' P (λ _. AllReg mgr rs) (λ _. AllReg mgr (r ∷ rs)) (set_up_all R mgr rs s')
              (λ t h. h.0) (λ _ t h rest. (h.1, rest))
              (set_up_all-Leads P' (both-IsIdle P (Reg one) I (Rs.stays one)) mgr rs s' (p', here)))

  -- The five controllers are registered with the manager: the two reconcilers and the two observers with the
  -- locker, and that of templates.
  abbrev pub AllSetUp :
      (Registration T → T.State → Type 0) → AppLocker T → T.Manager → T.State → Type 0
  AllSetUp Reg locker mgr s =
      (config : T.Config) × (dyn : T.DynClient) × (br : T.BrClient) × (batch : T.BatchClient) × All
        (λ (r : Reconciler T). Reg (registration R mgr r) s)
        (controllers R mgr (deps_of R mgr config dyn br locker) batch)

  module _ (P : T.State → Type 0) (I : IsIdle P) where
    manager_or_exit-Leads :
        (r : Fallible T.Manager × T.State) → P r.1 → Leads P (λ _ _. Unit {0}) (manager_or_exit R r)
    unfolding manager_or_exit Leads
    manager_or_exit-Leads (gives mgr, s) p = (p, tt)
    manager_or_exit-Leads (fails e, s) p = (p, refl)

    new_manager_with-Leads :
        (app : App) (c : Option T.Config) (s : T.State)
        → P s
        → Leads P (λ _ _. Unit {0}) (new_manager_with R app c s)
    unfolding new_manager_with Leads
    new_manager_with-Leads app none s p = (p, refl)
    new_manager_with-Leads app (some config) s p =
        manager_or_exit-Leads _ (I.manager_made config _ s p)

    pub prepare-Leads :
        (Reg : Registration T → T.State → Type 0) (Rs : IsRegister Reg) (app : App)
        (locker : AppLocker T) (s : T.State)
        → P s
        → Leads P (AllSetUp Reg locker) (prepare R app locker s)
    unfolding prepare new_manager or_return new_all_supported_job_resource_types
        new_kubernetes_job_resource_type
    prepare-Leads Reg Rs app locker s p =
        let Q = AllSetUp Reg locker in
        bind-Leads P _ Q _ _ (new_manager_with-Leads app (R.get_config s) s p) (λ mgr s p _.
          bind-Leads P _ Q _ _ (or_panic-Leads P _ s p) (λ config s p _.
            bind-Leads P _ Q _ _ (or_panic-Leads P _ s p) (λ dyn s p _.
              bind-Leads P _ Q _ _ (or_panic-Leads P _ s p) (λ br s p _.
                bind-Leads P _ Q _ _ (or_panic-Leads P _ s p) (λ batch s p _.
                  let rs = controllers R mgr (deps_of R mgr config dyn br locker) batch in
                  let Here = AllReg Reg Rs mgr rs in
                  let P' : T.State → Type 0 = λ s. P s × Here s in
                  let J = both-IsIdle P Here I (AllReg-IsIdle Reg Rs mgr rs) in
                  let Nothing : T.State → Type 0 = λ s. Unit in
                  bind-Leads P _ Q _ _ (set_up_all-Leads Reg Rs P I mgr rs s p) (λ _ s p here.
                    map-Leads P' P Q Q _ (λ t h. h.0) (λ _ t h q. q)
                      (bind-Leads P' _ Q _ _
                        (return_error-Leads P' Nothing _ (J.healthz mgr "healthz" s (p, here))
                          (λ e. tt))
                        (λ _ s p _.
                          bind-Leads P' _ Q _ _
                            (return_error-Leads P' Nothing _ (J.readyz mgr "readyz" s p) (λ e. tt))
                            (λ _ s p _.
                              going-Leads P' Q mgr s p (config, dyn, br, batch, p.1))))))))))
