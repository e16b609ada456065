-- ===== src/Cli/Start.antt =====
-- The server that the command line starts.
use rust_socksd.Prelude.{true, ◌≡◌, refl, ap, subst, Bytes, ok, >>=-eq-ok}
use rust_socksd.Text.{Unicode}
use rust_socksd.Config.{Config}
use rust_socksd.Config.Validate
use rust_socksd.Files.{Disk, load_config}
use rust_socksd.Files.Kept.{IfOk, load_config-Valid}
use rust_socksd.Backend.{Backends, create_authenticator}
use rust_socksd.Server
use rust_socksd.Server.{ServerState, ProxyServer}
use rust_socksd.Cli.{Options, Environment, apply_overrides, exists, file_config, launch}

-- What the options and the environment leave of the configuration.
abbrev pub Guards : Config → Config → Type 0
Guards config running =
    (running.auth ≡ config.auth)
    × (running.security ≡ config.security)
    × (running.upstream ≡ config.upstream)
    × (running.admin.token ≡ config.admin.token)
    × (running.admin.admin_users ≡ config.admin.admin_users)
    × (running.server.max_connections ≡ config.server.max_connections)

created :
    (b : Backends) ⦃u : Unicode⦄ (config : Config) (path : Bytes) (disk : Disk) {s : ProxyServer}
    → Server.create b config path disk ≡ ok s
    → (s.state.config ≡ config) × (create_authenticator b config disk ≡ ok s.state.authenticator)
unfolding Server.create
created b config path disk h =
    let (authenticator, made, same) = >>=-eq-ok (create_authenticator b config disk) _ h in
    subst
      (IfOk λ s.
        (s.state.config ≡ config) × (create_authenticator b config disk ≡ ok s.state.authenticator))
      same (refl, made)

-- With a configuration file that can be looked at there is no server unless the file can be loaded and
-- is valid. The configuration of the server that starts has the sections on authentication, security
-- and upstream proxies, the admin token, the admin users and the number of connections of the file,
-- and its backend is the one that this configuration names: the options and the variables that
-- override the configuration change none of that.
pub launch_fails_closed :
    ⦃u : Unicode⦄ (b : Backends) (o : Options) (env : Environment) (disk : Disk) {s : ProxyServer}
    → exists o.config disk ≡ true
    → launch b o env disk ≡ ok s
    → (config : Config) × (load_config b.yaml o.config disk ≡ ok config)
      × (Validate.validate config ≡ ok tt)
      × Guards config s.state.config
      × (create_authenticator b (apply_overrides o env config) disk ≡ ok s.state.authenticator)
unfolding launch file_config apply_overrides
launch_fails_closed b o env disk there h =
    let (config, loaded, k) = >>=-eq-ok (file_config b.yaml o.config disk) _ h in
    let from_file : load_config b.yaml o.config disk ≡ ok config =
      rw (there, file_config) at loaded in
    let (same, made) = created b (apply_overrides o env config) o.config disk k in
    (
      config,
      from_file,
      load_config-Valid b.yaml o.config disk from_file,
      (
        ap (λ c. c.auth) same,
        ap (λ c. c.security) same,
        ap (λ c. c.upstream) same,
        ap (λ c. c.admin.token) same,
        ap (λ c. c.admin.admin_users) same,
        ap (λ c. c.server.max_connections) same,
      ),
      made,
    )
