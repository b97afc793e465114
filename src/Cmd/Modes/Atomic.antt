-- ===== src/Cmd/Modes/Atomic.antt =====
-- How a copy of the binary gets into place.
use kubepark.Prelude.{◌≡◌, Error, Exec, Result, ok, err, continue, ◌>>=◌}
use kubepark.Prelude.Keeps.{Keeps, Keeps-bind}
use kubepark.Prelude.Text.{Text, codes}
use kubepark.Cluster.Os.{File}
use kubepark.Cmd.Modes.{
  InstallOs, deferring, or_close, failing, destination, fill_and_rename, with_source, in_steps,
  install_self,
}

-- `m` keeps `P` where it fails.
pub record KeepsFailing {W A : Type 0} (P : W → Type 0) (m : Exec W A) : Type 0 where
  pub at : (w : W) (e : Error) → (m w).0 ≡ err e → P w → P (m w).1

module _ {W : Type 0} (P : W → Type 0) where
  deferring-KeepsFailing :
      (cleanup body : Exec W Unit)
      → Keeps P cleanup
      → KeepsFailing P body
      → KeepsFailing P (deferring cleanup body)
  unfolding deferring
  deferring-KeepsFailing cleanup body kept k = record {
    at = λ w e h p. kept.at (body w).1 (k.at w e h p);
  }

  or_close-Keeps :
      (closing m : Exec W Unit) → Keeps P closing → Keeps P m → Keeps P (or_close closing m)
  unfolding or_close
  or_close-Keeps closing m kept k = record { at = λ w p. by_outcome (m w).0 (m w).1 (k.at w p) }
    where
      by_outcome : (r : Result (Unit {0})) (v : W) → P v → P (failing closing r v).1
      by_outcome (ok tt) v p = p
      by_outcome (err e) v p = kept.at v p

module _ {W A B : Type 0} (P : W → Type 0) where
  bind-KeepsFailing :
      (m : Exec W A) (f : A → Exec W B)
      → Keeps P m
      → ((a : A) → KeepsFailing P (f a))
      → KeepsFailing P (m >>= f)
  unfolding ◌>>=◌
  bind-KeepsFailing m f k kf = record { at = λ w e h p. by_outcome (m w).0 (m w).1 e h (k.at w p) }
    where
      by_outcome :
          (r : Result A) (v : W) (e : Error)
          → (continue r f v).0 ≡ err e
          → P v
          → P (continue r f v).1
      by_outcome (ok a) v e h p = (kf a).at v e h p
      by_outcome (err x) v e h p = p

module _ {W : Type 0} (os : InstallOs W) (P : W → Type 0) (dir : Text)
    (executable_keeps : Keeps P os.executable) (open_keeps : (t : Text) → Keeps P (os.open_file t))
    (mkdir_keeps : Keeps P (os.mkdir_all dir 0o755))
    (temp_keeps : Keeps P (os.create_temp dir (codes ".agent-*")))
    (copy_keeps : (tmp source : File) → Keeps P (os.copy tmp source))
    (chmod_keeps : (tmp : File) → Keeps P (os.chmod tmp 0o755))
    (close_keeps : (f : File) → Keeps P (os.close f))
    (remove_keeps : (name : Text) → Keeps P (os.remove name))
    (rename_keeps : (name : Text) → KeepsFailing P (os.rename name (destination os dir))) where
  fill_and_rename-KeepsFailing :
      (source tmp : File) (name : Text) → KeepsFailing P (fill_and_rename os dir source (tmp, name))
  fill_and_rename-KeepsFailing source tmp name =
      bind-KeepsFailing P _ _
        (Keeps-bind
          (Keeps-bind (or_close-Keeps P _ _ (close_keeps tmp) (copy_keeps tmp source))
            (λ _. or_close-Keeps P _ _ (close_keeps tmp) (chmod_keeps tmp)))
          (λ _. close_keeps tmp))
        (λ _. rename_keeps name)

  with_source-KeepsFailing : (source : File) → KeepsFailing P (with_source os dir source)
  with_source-KeepsFailing source = bind-KeepsFailing P _ _ mkdir_keeps (λ _.
      bind-KeepsFailing P _ _ temp_keeps (λ temp.
        deferring-KeepsFailing P _ _ (remove_keeps temp.1)
          (fill_and_rename-KeepsFailing source temp.0 temp.1)))

  in_steps-KeepsFailing : KeepsFailing P (in_steps os dir)
  in_steps-KeepsFailing = bind-KeepsFailing P _ _ executable_keeps (λ self.
      bind-KeepsFailing P _ _ (open_keeps self) (λ source.
        deferring-KeepsFailing P _ _ (close_keeps source) (with_source-KeepsFailing source)))

  -- An installation that fails keeps what looking up and copying the binary, making the directory and the
  -- temporary file, removing that, and a rename that fails keep: such as what stands at the
  -- destination, which is only ever replaced by the rename.
  pub install_self-KeepsFailing : KeepsFailing P (install_self os dir)
  unfolding install_self
  install_self-KeepsFailing = in_steps-KeepsFailing
