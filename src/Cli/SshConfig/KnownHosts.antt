-- ===== src/Cli/SshConfig/KnownHosts.antt =====
-- What the client remembers of the hosts that it has seen.
use kubepark.Prelude.{◌≡◌, ◌≢◌, refl, sym, ap, ◌∙◌, subst, arith, some, [], ◌∷◌, ◌++◌, pure, ok}
use kubepark.Prelude.Returns.{bind_returns}
use kubepark.Prelude.Text.{Text, codes}
use kubepark.Cluster.Os.{Os}
use kubepark.Cluster.Ssh.{Ssh}
use kubepark.Cli.Address.{split_host_port}
use kubepark.Cli.Keys.{Paths, config_dir, ensure_key_pair, cert_path}
use kubepark.Cli.Keys.Kept.{IsFileSystem, ended}
use kubepark.Cli.SshConfig.{
  authority_line, line, config_text, known_hosts_path, host_checks, write_config, in_steps,
  write_ssh_config,
}

module _ {W : Type 0} (os : Os W) (paths : Paths W) (fs : IsFileSystem os paths) (ssh : Ssh W) where
  -- The lines for the sandboxes' keys, where an authority is given.
  abbrev pub strict_checks : Text → Text
  strict_checks dir =
      line (codes "    UserKnownHostsFile " ++ known_hosts_path os paths dir)
        (line (codes "    StrictHostKeyChecking yes") [])

  -- From `w` to `w'`: the directory, the keys and the certificate's path are found, the authority is
  -- read from its file; at the end the file of known hosts has just the line of what was read, and
  -- both sections of the configuration name that file.
  pub record Forgets (gateway_addr gateway_user host_ca path : Text) (w w' : W) : Type 0 where
    pub dir : Text
    pub has_dir : W
    pub finds_dir : config_dir os paths w ≡ (ok dir, has_dir)
    pub priv : Text
    pub public : Text
    pub has_keys : W
    pub finds_keys : ensure_key_pair os paths ssh has_dir ≡ (ok (priv, public), has_keys)
    pub cert : Text
    pub has_cert : W
    pub finds_cert : cert_path os paths has_keys ≡ (ok cert, has_cert)
    pub ca_pub : Text
    pub has_ca : W
    pub reads_ca : os.read_file host_ca has_cert ≡ (ok ca_pub, has_ca)
    pub only_authority :
        fs.content w' (known_hosts_path os paths dir) ≡ some (authority_line ca_pub)
    pub config :
        fs.content w' path
        ≡ some (
            config_text
              (split_host_port gateway_addr).0
              (split_host_port gateway_addr).1
              gateway_user
              priv
              (known_hosts_path os paths dir)
              cert
              (strict_checks dir))

  host_checks-content :
      (dir host_ca checks : Text) (w w' : W)
      → host_ca ≢ []
      → host_checks os paths dir host_ca w ≡ (ok checks, w')
      → (checks ≡ strict_checks dir)
        × ((ca_pub : Text) × (v : W) × (os.read_file host_ca w ≡ (ok ca_pub, v))
            × (fs.content w' (known_hosts_path os paths dir) ≡ some (authority_line ca_pub)))
  host_checks-content dir [] checks w w' named h = absurd (named refl)
  host_checks-content dir (c ∷ cs) checks w w' named h =
      let (ca_pub, w1, e1, h1) = bind_returns _ _ w w' checks h in
      let (done, w2, e2, h2) = bind_returns _ _ w1 w' checks h1 in
      let written =
        fs.written (known_hosts_path os paths dir) (authority_line ca_pub) 0o644 w1 w2 e2 in
      let ends : w2 ≡ w' = unfold pure in ended h2 in
      let checks_are : strict_checks dir ≡ checks = unfold pure in ground (arith, h2) in
      (
        sym checks_are,
        (
          ca_pub,
          w1,
          e1,
          ap (λ x. fs.content x (known_hosts_path os paths dir)) (sym ends) ∙ written,
        ),
      )

  write_config-Forgets :
      (dir : Text)
      → paths.join dir (codes "ssh_config") ≢ paths.join dir (codes "known_hosts")
      → (gateway_addr gateway_user host_ca priv public cert checks path : Text) (w w1 w2 v u w' : W)
      → host_ca ≢ []
      → config_dir os paths w ≡ (ok dir, w1)
      → ensure_key_pair os paths ssh w1 ≡ (ok (priv, public), w2)
      → cert_path os paths w2 ≡ (ok cert, v)
      → host_checks os paths dir host_ca v ≡ (ok checks, u)
      → write_config os paths dir gateway_addr gateway_user priv cert checks u ≡ (ok path, w')
      → Forgets gateway_addr gateway_user host_ca path w w'
  write_config-Forgets dir apart gateway_addr gateway_user host_ca priv public cert checks path w w1
        w2 v u w' named e1 e2 e3 checked h =
      let (done, w5, e5, h5) = bind_returns _ _ u w' path h in
      let (checks_are, (ca_pub, read, reads, known)) =
        host_checks-content dir host_ca checks v u named checked in
      let ends : w5 ≡ w' = unfold pure in ended h5 in
      let path_is : paths.join dir (codes "ssh_config") ≡ path =
        unfold pure in ground (arith, h5) in
      let config =
        config_text (split_host_port gateway_addr).0 (split_host_port gateway_addr).1 gateway_user
          priv (known_hosts_path os paths dir) cert in
      let written =
        fs.written (paths.join dir (codes "ssh_config")) (config checks) 0o600 u w5 e5 in
      let left =
        fs.elsewhere (paths.join dir (codes "ssh_config")) (known_hosts_path os paths dir)
          (config checks) 0o600 u apart in
      record {
        dir = dir;
        has_dir = w1;
        finds_dir = e1;
        priv = priv;
        public = public;
        has_keys = w2;
        finds_keys = e2;
        cert = cert;
        has_cert = v;
        finds_cert = e3;
        ca_pub = ca_pub;
        has_ca = read;
        reads_ca = reads;
        only_authority =
            ap (λ x. fs.content x (known_hosts_path os paths dir)) (sym (ended e5 ∙ ends))
            ∙ left
            ∙ known;
        config =
            subst (λ (t : Text). fs.content w' path ≡ some (config t)) checks_are
              (subst (λ (p : Text). fs.content w' p ≡ some (config checks)) path_is
                (ap (λ x. fs.content x (paths.join dir (codes "ssh_config"))) (sym ends)
                  ∙ written));
      }

  in_steps-Forgets :
      ((d : Text) → paths.join d (codes "ssh_config") ≢ paths.join d (codes "known_hosts"))
      → (gateway_addr gateway_user host_ca path : Text) (w w' : W) → host_ca ≢ []
      → in_steps os paths ssh gateway_addr gateway_user host_ca w ≡ (ok path, w')
      → Forgets gateway_addr gateway_user host_ca path w w'
  in_steps-Forgets apart gateway_addr gateway_user host_ca path w w' named h =
      let (dir, w1, e1, h1) = bind_returns _ _ w w' path h in
      let (keys, w2, e2, h2) = bind_returns _ _ w1 w' path h1 in
      let (cert, w3, e3, h3) = bind_returns _ _ w2 w' path h2 in
      let (checks, w4, e4, h4) = bind_returns _ _ w3 w' path h3 in
      write_config-Forgets dir (apart dir) gateway_addr gateway_user host_ca keys.0 keys.1 cert
        checks path w w1 w2 w3 w4 w' named e1 e2 e3 e4 h4

  -- With an authority given, a run without an error leaves the file of known hosts with just the line
  -- of the text that this run read from the authority's file, whatever it held before, and the
  -- gateway's section of the configuration names the same file: the key of the gateway that ssh has
  -- accepted and noted there is forgotten.
  pub write_ssh_config-Forgets :
      ((d : Text) → paths.join d (codes "ssh_config") ≢ paths.join d (codes "known_hosts"))
      → (gateway_addr gateway_user host_ca path : Text) (w w' : W) → host_ca ≢ []
      → write_ssh_config os paths ssh gateway_addr gateway_user host_ca w ≡ (ok path, w')
      → Forgets gateway_addr gateway_user host_ca path w w'
  unfolding write_ssh_config
  write_ssh_config-Forgets apart gateway_addr gateway_user host_ca path w w' named h =
      in_steps-Forgets apart gateway_addr gateway_user host_ca path w w' named h
