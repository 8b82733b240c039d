-- ===== src/Watcher/Setup/Estimate.antt =====
-- A watcher needs the estimate of active validators.
use peekd.Base.{Text, codes, ◌≡◌}
use peekd.Base.Results.{Result, ok, err, panicked, wrapped, ◌>>=◌, IsOk}
use peekd.Gossip.Topics.{new_gossip_sub}
use peekd.Gossip.Topics as Topics
use peekd.Host.Create.{NewHost}
use peekd.Processor.State.{BeaconMessageProcessor}
use peekd.Eth.{set_network, get_genesis_config, get_beacon_chain_config}
use peekd.Repository.Open.{new_clickhouse_repository}
use peekd.Watcher.{initialize_repository, WatcherOption}
use peekd.Watcher.Launch.{Flags, launch_options, apply-launch_options, or_default, launched}
use peekd.Watcher.Setup.{
  found_keys, made_conn_mgr, made_host, made_discovery, made_dialer, made_processor,
  made_gossip_sub, Others, create, new_watcher,
}

-- A chain of steps returns nothing if what follows its first step does not.
bind-not_ok :
    {A B : Type 0} (r : Result A) (f : A → Result B) → ((a : A) → ¬ IsOk (f a)) → ¬ IsOk (r >>= f)
bind-not_ok (ok a) f never h = never a h
bind-not_ok (err e) f never h = h
bind-not_ok panicked f never h = h

not_ok-bind : {A B : Type 0} (r : Result A) (f : A → Result B) → ¬ IsOk r → ¬ IsOk (r >>= f)
not_ok-bind (ok a) f never h = never tt
not_ok-bind (err e) f never h = h
not_ok-bind panicked f never h = h

module _ (others : Others) where
  open others use {Supervisor, driver, net, printing, params}

  new_gossip_sub-not_ok :
      (network : Text) (o : WatcherOption) (local_host : NewHost net)
      (processor : BeaconMessageProcessor)
      → o.estimate_active_validators ≡ 0
      → ¬ IsOk (made_gossip_sub others network o local_host processor)
  unfolding new_gossip_sub Topics.create Topics.apply
  new_gossip_sub-not_ok network o local_host processor e = rw e (λ h. h)

  create-not_ok :
      (network : Text) (o : WatcherOption)
      → o.estimate_active_validators ≡ 0
      → ¬ IsOk (create others network o)
  unfolding create
  create-not_ok network o e =
      bind-not_ok (initialize_repository (new_clickhouse_repository driver) o) _ (λ repo.
        bind-not_ok (found_keys others o) _ (λ found.
          bind-not_ok (made_conn_mgr others o) _ (λ conn_mgr.
            bind-not_ok (made_host others o found conn_mgr) _ (λ local_host.
              bind-not_ok (made_discovery others network o found) _ (λ discovery.
                bind-not_ok (made_dialer others local_host discovery) _ (λ dialer.
                  bind-not_ok (get_beacon_chain_config params network) _ (λ config.
                    bind-not_ok (get_genesis_config params network) _ (λ genesis.
                      let processor = made_processor others o genesis config in
                      not_ok-bind (made_gossip_sub others network o local_host processor) _
                        (new_gossip_sub-not_ok network o local_host processor e)))))))))

  -- A watcher that is launched without an estimate of active validators, or with the estimate 0, never
  -- comes up, whatever the other flags are and whatever the other packages answer.
  pub new_watcher-not_ok :
      (flags : Flags) (network : Text)
      → or_default flags.estimate_active_validators 0 ≡ 0
      → ¬ IsOk (new_watcher others (launch_options flags) network).1
  unfolding new_watcher
  new_watcher-not_ok flags network e = rw (apply-launch_options params.mainnet_name flags) (
      let o = launched params.mainnet_name flags in
      let set = set_network params o.eth_network network in
      bind-not_ok (wrapped (codes "failed to set eth network") set.1) _
        (λ done. create-not_ok set.0 o e))
