-- ===== src/Cmd.antt =====
-- The command line: `launchWatcher` of cmd/cmd_watcher.go and `main` of cmd/cmd.go. The library of the
-- command line hands on what the action returns. A signal only ends the context, which the supervisor
-- sees: what it returns is an argument, and so is `strings.ToLower`.
pub mod Names
pub mod Reads
pub mod Table
pub mod Settings
use peekd.Base.{
  Bool-cases, ℕ, Bool, true, false, Option, none, some, List, [], ◌∷◌, Text, Text-discrete, codes,
  ite, if◌then◌else◌, ◌≡◌, ◌≢◌, ◌↔◌, ◌⊎◌, inl, inr, refl, ap, ◌∙◌, sym, if_pos, if_neg, arith,
}
use peekd.Base.Results.{Error, Result, ok, err, panicked, wrapped, Result-cases}
use peekd.Cmd.Reads.{Cli, flags_of, level_text}
use peekd.Eth.{set_network}
use peekd.Repository.Open.{ClickHouseRepository, new_clickhouse_repository}
use peekd.Watcher.{apply, default_option, initialize_repository, WatcherOption}
use peekd.Watcher.Launch.{Flags, launch_options, initialize_repository-unsupported}
use peekd.Watcher.Setup.{Others, Watcher, Service, create, new_watcher}

pub data Level : Type 0 where
  debug info warn error : Level

-- The `switch` over the log level, in lower case.
unfoldable pub log_level : Text → Level
log_level text = ite (Text-discrete text (codes "debug")) debug (
    ite (Text-discrete text (codes "info")) info (
      ite (Text-discrete text (codes "warn")) warn
        (ite (Text-discrete text (codes "error")) error info)))

-- What `main` ends in.
pub data Exit : Type 0 where
  status : ℕ → Exit
  crash : Exit

-- `errors.Is(err, context.Canceled)`, which unwraps the messages.
unfoldable pub is_canceled : Error → Bool
is_canceled Error.canceled = true
is_canceled (Error.new text) = false
is_canceled (Error.wrap e text) = is_canceled e

-- The end of `main`, after `cmd.Run`.
unfoldable pub exit_of : Result (Unit {0}) → Exit
exit_of (ok _) = status 0
exit_of (err e) = if is_canceled e then status 0 else status 1
exit_of panicked = crash

-- The first cause of an error.
abbrev pub cause : Error → Error
cause (Error.wrap e text) = cause e
cause (Error.new text) = Error.new text
cause Error.canceled = Error.canceled

-- No error, or the end of the context.
abbrev pub IsCalm : Result (Unit {0}) → Type 0
IsCalm (ok _) = Unit
IsCalm (err e) = cause e ≡ Error.canceled
IsCalm panicked = ⊥

is_canceled-cause : (e : Error) → (is_canceled e ≡ true) ↔ (cause e ≡ Error.canceled)
unfolding is_canceled
is_canceled-cause (Error.new text) = (λ h. ground arith, λ h. ground arith)
is_canceled-cause (Error.wrap e text) = is_canceled-cause e
is_canceled-cause Error.canceled = (λ h. refl, λ h. refl)

exit_of-IsCalm : (r : Result (Unit {0})) → (exit_of r ≡ status 0) ↔ IsCalm r
unfolding exit_of
exit_of-IsCalm (ok _) = (λ h. tt, λ h. refl)
exit_of-IsCalm (err e) =
    let same = is_canceled-cause e in
    elim (Bool-cases (is_canceled e)) [
      | inl yes_it_is ↦ rw yes_it_is (λ h. same.0 yes_it_is, λ h. refl)
      | inr no_it_is_not ↦ rw no_it_is_not (λ h. ground arith, λ h. ground (arith, same.1 h))
    ]
exit_of-IsCalm panicked = (λ h. ground arith, λ h. absurd h)

module _ (others : Others) (to_lower : Text → Text)
    (supervise : others.Supervisor → List (Service others) → Result (Unit {0})) where
  open others use {driver, params}

  -- What is left behind: the level that logging was set to, the repositories that were closed, and what
  -- was returned.
  pub record Outcome : Type 0 where
    pub logging : Option Level
    pub closed : List (ClickHouseRepository driver)
    pub result : Result (Unit {0})

  -- `Serve` of the watcher, with its deferred `Close`.
  unfoldable pub serve : Watcher others → List (ClickHouseRepository driver) × Result (Unit {0})
  serve w = (w.repo ∷ [], supervise w.supervisor w.services)

  abbrev pub logging_of : Option Text → Option Level
  logging_of none = none
  logging_of (some text) = some (log_level (to_lower text))

  -- From what `NewWatcher` returns on.
  unfoldable pub serve_created :
      Result (Watcher others) → List (ClickHouseRepository driver) × Result (Unit {0})
  unfolding serve
  serve_created (ok w) = serve w
  serve_created (err e) = ([], err (Error.wrap e (codes "failed to create watcher")))
  serve_created panicked = ([], panicked)

  -- `network` is the variable of the package eth.
  unfoldable pub launch_watcher : Cli → Text → Outcome
  unfolding serve_created
  launch_watcher cli network =
      let (closed, result) =
        serve_created (new_watcher others (launch_options (flags_of cli)) network).1 in
      record { logging = logging_of (level_text cli); closed = closed; result = result }

  unfoldable pub main : Cli → Text → Exit
  unfolding launch_watcher exit_of
  main cli network = exit_of (launch_watcher cli network).result

  -- An error that `NewWatcher` makes itself.
  refused :
      (network : Text) (o : WatcherOption) (e : Error)
      → initialize_repository (new_clickhouse_repository driver) o ≡ err e
      → is_canceled e ≡ false
      → (exit_of (serve_created (create others network o)).1 ≡ status 1)
        × ((serve_created (create others network o)).0 ≡ [])
  unfolding create serve_created exit_of is_canceled
  refused network o e failed foreign = rw (failed, foreign) (refl, refl)

  set_network-cases :
      (net network : Text)
      → ((set_network params net network).1 ≡ ok tt)
        ⊎ ((set_network params net network).1
            ≡ err (Error.new (codes "network must be set only for supported ethereum")))
  unfolding set_network
  set_network-cases net network = elim (Text-discrete net params.mainnet_name) [
    | yes m ↦ inl (ground arith)
    | no m ↦ elim (Text-discrete net params.hoodi_name) [
      | yes h ↦ inl (ground arith)
      | no h ↦ inr (ground arith)
    ]
  ]

  -- A program that is started with a database type other than "clickhouse", or with none, exits with
  -- status 1, whatever the other flags are, and has closed no repository, since none was opened.
  pub main-unsupported :
      (cli : Cli) (network : Text)
      → (flags_of cli).db_type ≢ some (codes "clickhouse")
      → (main cli network ≡ status 1) × ((launch_watcher cli network).closed ≡ [])
  unfolding main launch_watcher new_watcher
  main-unsupported cli network other =
      let o = apply (launch_options (flags_of cli)) (default_option params.mainnet_name) in
      elim (set_network-cases o.eth_network network) [
        | inl set ↦ rw (set) (
            refused (set_network params o.eth_network network).0 o _
              (initialize_repository-unsupported (new_clickhouse_repository driver)
                params.mainnet_name (flags_of cli) other)
              (unfold is_canceled in refl))
        | inr failed ↦ rw failed (unfold is_canceled in (refl, refl))
      ]

  -- A watcher that comes up: when the supervisor returns, its repository is closed, once and no other. The
  -- program then exits with status 0 exactly if the supervisor returned no error, or one that comes from
  -- the end of the context.
  pub main-served :
      (cli : Cli) (network : Text) (w : Watcher others)
      → (new_watcher others (launch_options (flags_of cli)) network).1 ≡ ok w
      → ((launch_watcher cli network).closed ≡ w.repo ∷ [])
        × ((main cli network ≡ status 0) ↔ IsCalm (supervise w.supervisor w.services))
  unfolding main launch_watcher serve_created serve exit_of
  main-served cli network w up = rw up (refl, exit_of-IsCalm (supervise w.supervisor w.services))
