-- ===== src/Cli/Keys/Kept.antt =====
-- The files of the client's keys.
use kubepark.Prelude.{
  ◌≡◌, ◌≢◌, ◌⊎◌, inl, inr, refl, sym, ap, ◌∙◌, subst, Bool, true, false, Option, none, some, ◌∷◌,
  ◌++◌, ℕ, Result, ok, pure, gets, ◌>>=◌, ◌>>◌, arith,
}
use kubepark.Prelude.Returns.{bind_returns}
use kubepark.Prelude.Text.{Text, codes, length, length-append}
use kubepark.Cluster.Os.{Os}
use kubepark.Cluster.Ssh.{Ssh}
use kubepark.SshCa.{KeyPair, generate_key_pair}
use kubepark.Cli.Keys.{
  Paths, config_dir, priv_path, pub_path, ensure_key_pair, unless_there, write_key_pair,
}

abbrev pub is_there : Option Text → Bool
is_there none = false
is_there (some t) = true

is_there-true : (o : Option Text) → is_there o ≡ true → (k : Text) × (o ≡ some k)
is_there-true none h = cc
is_there-true (some k) h = (k, refl)

is_there-false : (o : Option Text) → is_there o ≡ false → o ≡ none
is_there-false none h = refl
is_there-false (some k) h = cc

-- What package os documents: a file that is written without an error has the bytes, the files at
-- other paths are as they were, a file that is read is read whole, and reading, looking for the home
-- and making a directory change no file.
pub record IsFileSystem {W : Type 0} (os : Os W) (paths : Paths W) : Type 0 where
  pub content : W → Text → Option Text
  pub found : (p : Text) (w : W) → os.exists p w ≡ is_there (content w p)
  pub written :
      (p t : Text) (mode : ℕ) (w w' : W)
      → os.write_file p t mode w ≡ (ok tt, w')
      → content w' p ≡ some t
  pub elsewhere :
      (p q t : Text) (mode : ℕ) (w : W)
      → p ≢ q
      → content (os.write_file p t mode w).1 q ≡ content w q
  pub read :
      (p t : Text) (w w' : W)
      → os.read_file p w ≡ (ok t, w')
      → (content w p ≡ some t) × ((q : Text) → content w' q ≡ content w q)
  pub made : (d q : Text) (mode : ℕ) (w : W) → content (os.mkdir_all d mode w).1 q ≡ content w q
  pub home_read : (q : Text) (w : W) → content (paths.home_dir w).1 q ≡ content w q

-- The state in which a call ends.
pub ended : {W A : Type 0} {x y : Result A × W} → x ≡ y → x.1 ≡ y.1
ended e = ap (λ x. x.1) e

pub longer_path : (p : Text) (c : ℕ) (s : Text) → p ≢ p ++ (c ∷ s)
longer_path p c s e = let same = ap length e in omega (arith, same, length-append p (c ∷ s))

module _ {W : Type 0} (os : Os W) (paths : Paths W) (fs : IsFileSystem os paths) where
  -- config_dir changes no file.
  pub config_dir-content :
      (w w' : W) (dir q : Text)
      → config_dir os paths w ≡ (ok dir, w')
      → fs.content w' q ≡ fs.content w q
  unfolding config_dir pure
  config_dir-content w w' dir q h =
      let (home, w1, e1, h1) =
        bind_returns paths.home_dir
          (λ home.
            os.mkdir_all (paths.join home (codes ".kubepark")) 0o700
            >> pure (paths.join home (codes ".kubepark")))
          w w' dir h in
      let (done, w2, e2, h2) =
        bind_returns (os.mkdir_all (paths.join home (codes ".kubepark")) 0o700)
          (λ _. pure (paths.join home (codes ".kubepark"))) w1 w' dir h1 in
      ap (λ x. fs.content x q) (sym (ended h2))
      ∙ ap (λ x. fs.content x q) (sym (ended e2))
      ∙ fs.made (paths.join home (codes ".kubepark")) q 0o700 w1
      ∙ ap (λ x. fs.content x q) (sym (ended e1))
      ∙ fs.home_read q w

  module _ (ssh : Ssh W) (w w' : W) (priv public : Text) where
    -- The private key was there, and no file is changed.
    abbrev pub Found : Type 0
    Found =
        ((k : Text) × (fs.content w priv ≡ some k))
        × ((q : Text) → fs.content w' q ≡ fs.content w q)

    -- The private key was not there, and both files are of the pair that is generated as soon as the
    -- directory is there.
    abbrev pub Made : Type 0
    Made =
        (fs.content w priv ≡ none)
        × ((dir : Text) × (key : KeyPair) × (v : W) × (v' : W) × (config_dir os paths w
              ≡ (ok dir, v))
            × (generate_key_pair ssh (codes "kubepark-cli") v ≡ (ok key, v'))
            × (fs.content w' priv ≡ some key.private_pem)
            × (fs.content w' public ≡ some key.public_authorized))

    write_key_pair-written :
        (dir : Text) (key : KeyPair) (v : W)
        → write_key_pair os paths dir key v ≡ (ok (priv, public), w')
        → (priv ≡ priv_path os paths dir)
          × (public ≡ pub_path os paths dir)
          × (fs.content w' priv ≡ some key.private_pem)
          × (fs.content w' public ≡ some key.public_authorized)
    write_key_pair-written dir key v h =
        let (both, v2, e2, h2) = bind_returns _ _ v w' (priv, public) h in
        let (first, v1, e1, h1) = bind_returns _ _ v v2 both e2 in
        let priv_is : priv_path os paths dir ≡ priv = unfold pure in ground (arith, h2) in
        let public_is : pub_path os paths dir ≡ public = unfold pure in ground (arith, h2) in
        let same : v2 ≡ w' = unfold pure in ended h2 in
        let priv_written = fs.written (priv_path os paths dir) key.private_pem 0o600 v v1 e1 in
        let public_written =
          fs.written (pub_path os paths dir) key.public_authorized 0o644 v1 v2 h1 in
        let priv_left =
          fs.elsewhere (pub_path os paths dir) (priv_path os paths dir) key.public_authorized 0o644
            v1 (λ e. longer_path (priv_path os paths dir) 46 (codes "pub") (sym e)) in
        (
          sym priv_is,
          sym public_is,
          subst (λ (p : Text). fs.content w' p ≡ some key.private_pem) priv_is
              (ap (λ x. fs.content x (priv_path os paths dir)) (sym same)
                ∙ ap (λ x. fs.content x (priv_path os paths dir)) (sym (ended h1))
                ∙ priv_left
                ∙ priv_written),
          subst (λ (p : Text). fs.content w' p ≡ some key.public_authorized) public_is
              (ap (λ x. fs.content x (pub_path os paths dir)) (sym same) ∙ public_written),
        )

    unless_there-Kept :
        (dir : Text) (v : W) (there : Bool)
        → config_dir os paths w ≡ (ok dir, v)
        → ((q : Text) → fs.content v q ≡ fs.content w q)
        → is_there (fs.content v (priv_path os paths dir)) ≡ there
        → unless_there os paths ssh dir there v ≡ (ok (priv, public), w')
        → (public ≡ priv ++ codes ".pub") × (Found ⊎ Made)
    unless_there-Kept dir v true made same there h =
        let priv_is : priv_path os paths dir ≡ priv = unfold pure in ground (arith, h) in
        let public_is : pub_path os paths dir ≡ public = unfold pure in ground (arith, h) in
        let (k, held) = is_there-true (fs.content v (priv_path os paths dir)) there in
        let ends : v ≡ w' = unfold pure in ended h in
        (
          sym public_is ∙ ap (λ (p : Text). p ++ codes ".pub") priv_is,
          inl (
            (k, subst (λ (p : Text). fs.content w p ≡ some k) priv_is (sym (same _) ∙ held)),
            λ q. ap (λ x. fs.content x q) (sym ends) ∙ same q,
          ),
        )
    unless_there-Kept dir v false made same there h =
        let (key, v1, e1, h1) =
          bind_returns (generate_key_pair ssh (codes "kubepark-cli")) (write_key_pair os paths dir)
            v w' (priv, public) h in
        let (priv_is, public_is, priv_written, public_written) =
          write_key_pair-written dir key v1 h1 in
        let missing = is_there-false (fs.content v (priv_path os paths dir)) there in
        (
          public_is ∙ ap (λ (p : Text). p ++ codes ".pub") (sym priv_is),
          inr (
            subst (λ (p : Text). fs.content w p ≡ none) (sym priv_is) (sym (same _) ∙ missing),
            (dir, key, v, v1, made, e1, priv_written, public_written),
          ),
        )

    -- The paths that are answered without an error are those of a private key and its .pub. If the
    -- private key was there, no file is changed; if not, the files are the private and the public
    -- half of the pair that this run generates.
    pub ensure_key_pair-Kept :
        ensure_key_pair os paths ssh w ≡ (ok (priv, public), w')
        → (public ≡ priv ++ codes ".pub") × (Found ⊎ Made)
    unfolding ensure_key_pair
    ensure_key_pair-Kept h =
        let (dir, v, e, h1) =
          bind_returns (config_dir os paths)
            (λ dir. gets (os.exists (priv_path os paths dir)) >>= unless_there os paths ssh dir) w
            w' (priv, public) h in
        let (there, v1, e1, h2) =
          bind_returns (gets (os.exists (priv_path os paths dir))) (unless_there os paths ssh dir) v
            w' (priv, public) h1 in
        let same : v ≡ v1 = unfold gets in ended e1 in
        let test : os.exists (priv_path os paths dir) v ≡ there =
          unfold gets in ground (arith, e1) in
        unless_there-Kept dir v there e (λ q. config_dir-content w v dir q e)
          (sym (fs.found (priv_path os paths dir) v) ∙ test)
          (subst (λ (x : W). unless_there os paths ssh dir there x ≡ (ok (priv, public), w'))
            (sym same) h2)
