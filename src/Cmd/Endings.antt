-- ===== src/Cmd/Endings.antt =====
-- How `Run` and the process end.
use backup_maker_controller.Prelude.{
  String, ◌<>◌, ◌≡◌, ◌⊎◌, ◌↔◌, inl, inr, refl, sym, subst, arith, false, Option, none, some, List,
  Err, gives, if◌then◌else◌,
}
use backup_maker_controller.Cmd.Packages.{
  App, Kinds, Runtime, Ending, returned, panicked, exited, Outcome, going, ended, bind_outcome,
  AppLocker, redis_distributed,
}
use backup_maker_controller.Cmd.{
  default_app, new_redis_distributed_locker, choose_locker, close, return_error, or_return, body,
  finish, run, exit_code, run_parsed, main,
}
use backup_maker_controller.Cmd.Setup.{Leads, nothing-IsIdle, IsRegister, AllSetUp, prepare-Leads}

-- The state in which the locker is chosen.
abbrev pub logging : {T : Kinds} → Runtime T → App → T.State → T.State
logging R app s = if app.debug then R.set_debug_level s else s

-- The process ends with the code 1 where it ends in the middle of `Run`.
abbrev OneExit : Ending → Type 0
OneExit (returned e) = Unit
OneExit panicked = Unit
OneExit (exited n) = n ≡ 1

exit_code_iff : (e : Ending) → OneExit e → (exit_code e ≡ 0) ↔ (e ≡ returned none)
unfolding exit_code
exit_code_iff (returned none) h = ground arith
exit_code_iff (returned (some e)) h = ground arith
exit_code_iff panicked h = ground arith
exit_code_iff (exited n) h = ground (arith, h)

module _ {T : Kinds} (R : Runtime T) (locker : AppLocker T) where
  -- What a part that has come so far goes on to: the start, and the end.
  abbrev ending_of : Outcome T.Manager × T.State → Ending × T.State
  ending_of r = finish R locker (bind_outcome r (λ mgr. or_return R (R.start mgr)))

  started-OneExit : (r : Option Err × T.State) → OneExit (finish R locker (return_error R r)).0
  unfolding finish return_error
  started-OneExit (none, s) = tt
  started-OneExit (some e, s) = tt

  ending-OneExit :
      (P : T.State → Type 0) (Q : T.Manager → T.State → Type 0) (r : Outcome T.Manager × T.State)
      → Leads P Q r
      → OneExit (ending_of r).0
  unfolding finish Leads bind_outcome or_return
  ending-OneExit P Q (going mgr, s) h = started-OneExit (R.start mgr s)
  ending-OneExit P Q (ended (returned e), s) h = tt
  ending-OneExit P Q (ended panicked, s) h = tt
  ending-OneExit P Q (ended (exited n), s) h = h.1

  -- The manager was started in a state, and what came of it is how this ends.
  abbrev pub StartedIn : T.Manager → T.State → Ending × T.State → Type 0
  StartedIn mgr s end = let (e, t) = R.start mgr s in end ≡ (returned e, close R locker t)

module _ {T : Kinds} (R : Runtime T) (client : T.RedisClient) (Closed : T.State → Type 0)
    (closes : (s : T.State) → Closed (R.close_redis client s)) where
  redis_closes :
      (r : Outcome (Unit {0}) × T.State)
      → OneExit (finish R (redis_distributed client) r).0
      → ((finish R (redis_distributed client) r).0 ≡ exited 1)
        ⊎ Closed (finish R (redis_distributed client) r).1
  unfolding finish close
  redis_closes (going u, s) h = inr (closes s)
  redis_closes (ended (returned e), s) h = inr (closes s)
  redis_closes (ended panicked, s) h = inr (closes s)
  redis_closes (ended (exited n), s) h = inl (rw h refl)

  finish_closes :
      (locker : AppLocker T) (r : Outcome (Unit {0}) × T.State)
      → locker ≡ redis_distributed client
      → OneExit (finish R locker r).0
      → ((finish R locker r).0 ≡ exited 1) ⊎ Closed (finish R locker r).1
  finish_closes locker r at h =
      subst
        (λ l. OneExit (finish R l r).0 → ((finish R l r).0 ≡ exited 1) ⊎ Closed (finish R l r).1)
        (sym at) (redis_closes r) h

-- What the choice of the locker keeps, and what it is with Redis.
module _ {T : Kinds} (R : Runtime T) (app : App) where
  choose_locker-redis :
      (s : T.State)
      → app.disable_redis ≡ false
      → let client =
          R.new_redis_client "tcp" (app.redis_host <> (":" <> R.number_text app.redis_port)) s in
        (choose_locker R app s).0 ≡ redis_distributed client.0
  unfolding choose_locker new_redis_distributed_locker
  choose_locker-redis s e = rw e refl

-- A register that says nothing.
nothing-IsRegister : {T : Kinds} (R : Runtime T) → IsRegister R (λ r s. Unit {0})
nothing-IsRegister R = record { made = λ r s h. tt; stays = λ r. nothing-IsIdle R }

module _ {T : Kinds} (R : Runtime T) (app : App) (s : T.State) where
  run-OneExit : OneExit (run R app s).0
  unfolding run body
  run-OneExit =
      let (locker, s') = choose_locker R app (logging R app s) in
      ending-OneExit R locker (λ s. Unit {0}) (AllSetUp R (λ r s. Unit {0}) locker) _
        (prepare-Leads R (λ s. Unit {0}) (nothing-IsIdle R) (λ r s. Unit {0}) (nothing-IsRegister R)
          app locker (R.set_logger app.zap_devel s') tt)

  -- The process succeeds exactly where `Run` returns no error: with the flags parsed, the exit code of
  -- `main` is 0 if, and only if, `Run` returned nil; an error, a panic and an exit show in the code.
  pub main_code_iff :
      (args : List String)
      → R.parse_flags default_app args ≡ gives (some app)
      → ((main R args s).0 ≡ 0) ↔ ((run R app s).0 ≡ returned none)
  unfolding main run_parsed
  main_code_iff args parsed = rw parsed (exit_code_iff (run R app s).0 run-OneExit)

  -- The connection to Redis does not outlive `Run`: where Redis is not disabled, and closing the client
  -- that was made makes it closed, it is closed when `Run` ends, by a result or a panic, unless the
  -- process ends in the middle of it with the code 1.
  pub run_closes :
      (Closed : T.RedisClient → T.State → Type 0)
      → app.disable_redis ≡ false
      → ((client : T.RedisClient) (s : T.State) → Closed client (R.close_redis client s))
      → let address = app.redis_host <> (":" <> R.number_text app.redis_port) in
        let client = (R.new_redis_client "tcp" address (logging R app s)).0 in
        ((run R app s).0 ≡ exited 1) ⊎ Closed client (run R app s).1
  unfolding run
  run_closes Closed redis closes =
      finish_closes R _ (Closed _) (closes _) _ _
        (choose_locker-redis R app (logging R app s) redis) run-OneExit
