-- ===== src/Gateway/Store/Sessions.antt =====
-- A session in the store, whose updates are checked against the version that was read.
use kubepark.Prelude.{◌≡◌, ◌<◌, ◌⊎◌, Option, none, some, not_found, Error, Result, ok, err}
use kubepark.Api.Meta.{Key, key_of}
use kubepark.Api.Session.{SandboxSession}
use kubepark.Cluster.{Client}

abbrev pub found_or_not : Option SandboxSession → Result SandboxSession
found_or_not none = err not_found
found_or_not (some s) = ok s

-- What the API server documents of sessions: a Get answers what is stored and changes nothing, and
-- what is stored under a key has that key. An update of the status may fail and leave all as it was;
-- it is applied, whatever the caller is told, only to an object of the version that it was read at,
-- and what is then stored has the status that was sent and a later version. An update that succeeds
-- was applied.
pub record IsStore {W : Type 0} (api : Client W) : Type 0 where
  pub stored : W → Key → Option SandboxSession
  pub get_stored : (k : Key) (w : W) → api.sessions.get k w ≡ (found_or_not (stored w k), w)
  pub clock_stored : (k : Key) (w : W) → stored (api.time_now w).1 k ≡ stored w k
  pub keyed : (w : W) (k : Key) (s : SandboxSession) → stored w k ≡ some s → key_of s.meta ≡ k
  pub updated :
      (k : Key) (s old : SandboxSession) (w : W)
      → key_of s.meta ≡ k
      → stored w k ≡ some old
      → ((stored (api.sessions.update_status s w).1 k ≡ some old)
          × ((e : Error) × ((api.sessions.update_status s w).0 ≡ err e)))
        ⊎ ((old.meta.resource_version ≡ s.meta.resource_version)
            × ((new : SandboxSession) × (stored (api.sessions.update_status s w).1 k ≡ some new)
                × (new.status ≡ s.status)
                × (old.meta.resource_version < new.meta.resource_version)))
