-- ===== src/Cmd/Settings.antt =====
-- What each flag of the command line sets: from the flags over launchWatcher's options to the options that
-- the watcher is made with.
use mathlib.Core.Path.{subst}
use peekd.Base.{
  ℕ, Bool, true, ite, ◌≡◌, refl, sym, List, [], ◌∷◌, map, Text, Text-discrete, ℕ_discrete, codes,
  All,
}
use peekd.Base.Int.{ℤ}
use peekd.Watcher.{WatcherOption, apply, default_option}
use peekd.Watcher.Launch.{launch_options, launched, apply-launch_options}
use peekd.Cmd.Reads.{Cli, flags_of}
use peekd.Cmd.Table.{Kind, string_flag, int_flag, uint_flag, bool_flag, Flag, flags_table}

-- A flag of a kind, by its name, and what its value does to the options.
pub data Setting : Type 0 where
  string_setting : Text → (Text → WatcherOption → WatcherOption) → Setting
  int_setting : Text → (ℤ → WatcherOption → WatcherOption) → Setting
  uint_setting : Text → (ℕ → WatcherOption → WatcherOption) → Setting
  bool_setting : Text → (Bool → WatcherOption → WatcherOption) → Setting

-- What each flag sets, as the usage texts of the flags say.
abbrev pub settings : List Setting
settings =
    string_setting (codes "ecdsa-private-key-hex") (λ v o. record o { ecdsa_private_key_hex = v })
    ∷ string_setting (codes "listen-ip") (λ v o. record o { listen_ip = v })
    ∷ int_setting (codes "udp-port") (λ v o. record o { port_udp = v })
    ∷ int_setting (codes "tcp-port") (λ v o. record o { port_tcp = v })
    ∷ int_setting (codes "target-peers") (λ v o. record o { target_peers = v })
    ∷ string_setting (codes "network") (λ v o. record o { eth_network = v })
    ∷ uint_setting (codes "estimate-active-validators")
        (λ v o. record o { estimate_active_validators = v })
    ∷ string_setting (codes "db-type") (λ v o. record o { db_type = v })
    ∷ string_setting (codes "db-host") (λ v o. record o { db_host = v })
    ∷ int_setting (codes "db-port") (λ v o. record o { db_port = v })
    ∷ string_setting (codes "db-name") (λ v o. record o { db_name = v })
    ∷ string_setting (codes "db-user") (λ v o. record o { db_user = v })
    ∷ string_setting (codes "db-password") (λ v o. record o { db_password = v })
    ∷ bool_setting (codes "db-secure") (λ v o. record o { db_secure = v })
    ∷ string_setting (codes "node-alias") (λ v o. record o { node_alias = v })
    ∷ string_setting (codes "node-region") (λ v o. record o { node_region = v })
    ∷ []

abbrev pub kind_and_name : Setting → Kind × Text
kind_and_name (string_setting name update) = (string_flag, name)
kind_and_name (int_setting name update) = (int_flag, name)
kind_and_name (uint_setting name update) = (uint_flag, name)
kind_and_name (bool_setting name update) = (bool_flag, name)

-- A command line with one flag more, or with another value for it.
abbrev updated {ℓ} : {A : Type ℓ} → Text → A → (Text → A) → Text → A
updated name v f other = ite (Text-discrete name other) v (f other)

abbrev pub set_string : Text → Text → Cli → Cli
set_string name v c = record c {
  is_set = updated name true c.is_set;
  string = updated name v c.string;
}

abbrev pub set_int : Text → ℤ → Cli → Cli
set_int name v c = record c { is_set = updated name true c.is_set; int = updated name v c.int }

abbrev pub set_uint : Text → ℕ → Cli → Cli
set_uint name v c = record c { is_set = updated name true c.is_set; uint = updated name v c.uint }

abbrev pub set_bool : Text → Bool → Cli → Cli
set_bool name v c = record c { is_set = updated name true c.is_set; bool = updated name v c.bool }

-- Setting the flag of the command line `c` does to the options `opt` what the setting says.
abbrev pub Sets : (Cli → WatcherOption) → Cli → Setting → Type 0
Sets opt c (string_setting name update) = (v : Text) → opt (set_string name v c) ≡ update v (opt c)
Sets opt c (int_setting name update) = (v : ℤ) → opt (set_int name v c) ≡ update v (opt c)
Sets opt c (uint_setting name update) = (v : ℕ) → opt (set_uint name v c) ≡ update v (opt c)
Sets opt c (bool_setting name update) = (v : Bool) → opt (set_bool name v c) ≡ update v (opt c)

module _ (mainnet_name : Text) where
  -- The options that the watcher is made with that a command line launches.
  abbrev pub option_of : Cli → WatcherOption
  option_of cli = apply (launch_options (flags_of cli)) (default_option mainnet_name)

  launched_set : (c : Cli) → All (Sets (λ cli. launched mainnet_name (flags_of cli)) c) settings
  unfolding flags_of Text-discrete ℕ_discrete
  launched_set c = (
    λ v. refl,
    (
      λ v. refl,
      (
        λ v. refl,
        (
          λ v. refl,
          (
            λ v. refl,
            (
              λ v. refl,
              (
                λ v. refl,
                (
                  λ v. refl,
                  (
                    λ v. refl,
                    (
                      λ v. refl,
                      (
                        λ v. refl,
                        (λ v. refl, (λ v. refl, (λ v. refl, (λ v. refl, (λ v. refl, tt))))),
                      ),
                    ),
                  ),
                ),
              ),
            ),
          ),
        ),
      ),
    ),
  )

  -- Setting one flag of the command line, whatever the others are, changes exactly the option of the watcher
  -- that it stands for. These flags are, with their kinds, those of the table but for the log level.
  pub settings-set :
      (c : Cli)
      → All (Sets option_of c) settings
        × ((string_flag, codes "log-level") ∷ map kind_and_name settings
            ≡ map (λ (f : Flag). (f.kind, f.name)) (flags_table mainnet_name))
  unfolding flags_table
  settings-set c = (
    subst (λ opt. All (Sets opt c) settings)
        (sym (λ i cli. apply-launch_options mainnet_name (flags_of cli) i)) (launched_set c),
    refl,
  )
