-- ===== src/ObjStatus/Recorded.antt =====
-- The state indicator after every method of `ObjStatus` of
-- ts-code/core/storage/synced/obj-status.ts that changes the status.
use core_3nweb_client_lib.Base.{
  ℕ, ◌≡◌, ◌⊎◌, inl, inr, Option, none, some, List, Outcome, ok, throws,
}
use core_3nweb_client_lib.Versions.{VersionsInfo, VersionsError, set_current_version_in}
use core_3nweb_client_lib.StatusInfo.{LocalVersions, SyncMarker, NewVersionUpload}
use core_3nweb_client_lib.ObjStatus.{
  ObjStatus, clear_postpone_flag_in_removal_on_remote, remove_current_version, record_upload_start,
  record_upload_interim_state, record_upload_cancellation, record_upload_completion,
  record_arch_version_removal, record_version_archival, record_remote_removal,
  record_remote_removal_completion, record_remote_change,
}
use core_3nweb_client_lib.ObjStatus.Local.{
  record_status_from_server, set_local_current_version, archive_current_version, set_local,
  local_or_new, absorb_local_version_base, adopt_remote_version,
}
use core_3nweb_client_lib.ObjStatus.Indicator.{
  IsInStep, update_and_save-IsInStep, Keeps, clears, removes, starts, goes_on, cancels,
  completes_removal, removed_remotely, changes_remotely,
}
use core_3nweb_client_lib.ObjStatus.Changes.{
  archived_removed, archived_added, archives_marked, server_told, completes, sets_local, absorbs,
  adopts_in_state,
}

-- What a status has, where a method needs it to keep the indicator.
abbrev IsPresent : {A : Type 0} → Option A → Type 0
IsPresent none = ⊥
IsPresent (some a) = Unit

-- All methods that change the status. Five have a condition: the completion of an upload, that there
-- are local versions; the setting of a local version, that there are or that it returns; removal and
-- addition of an archived version and what the server tells, that there is a marker of what is synced.
pub data Recorded (s : ObjStatus) : ObjStatus → Type 0 where
  postponement_cleared : Recorded s (clear_postpone_flag_in_removal_on_remote s).0
  current_removed : Recorded s (remove_current_version s).0
  upload_started : (info : NewVersionUpload) → Recorded s (record_upload_start s info).0
  upload_gone_on : (info : NewVersionUpload) → Recorded s (record_upload_interim_state s info).0
  upload_cancelled : (info : NewVersionUpload) → Recorded s (record_upload_cancellation s info).0
  removed_on_remote : Recorded s (record_remote_removal s)
  removal_completed : Recorded s (record_remote_removal_completion s).0
  remote_changed : (version : ℕ) → Recorded s (record_remote_change s version)
  upload_completed :
      (local_version version : ℕ)
      → IsPresent s.status.local
      → Recorded s (record_upload_completion s local_version version).0
  archived_version_removed :
      (version : ℕ) → IsPresent s.status.synced → Recorded s (record_arch_version_removal s version)
  version_archived :
      (version : ℕ) → IsPresent s.status.synced → Recorded s (record_version_archival s version)
  status_told :
      (archived : Option (List ℕ)) (current : Option ℕ)
      → IsPresent s.status.synced
      → Recorded s (record_status_from_server s archived current)
  local_version_set :
      (version : ℕ) (base : Option ℕ)
      → IsPresent s.status.local ⊎ ((set_local_current_version s version base).1 ≡ ok tt)
      → Recorded s (set_local_current_version s version base).0
  current_archived : Recorded s (archive_current_version s).0
  base_absorbed : (version base : ℕ) → Recorded s (absorb_local_version_base s version base).0
  remote_adopted : (version : Option ℕ) → Recorded s (adopt_remote_version s version).0

sets_new_local :
    (s : ObjStatus) (version : ℕ) (base : Option ℕ)
    → (set_local_current_version s version base).1 ≡ ok tt
    → IsInStep (set_local_current_version s version base).0
unfolding set_local_current_version
sets_new_local s version base =
    by_outcome (set_current_version_in (local_or_new s.status.local).vers version base)
  where
    by_outcome :
        (o : Outcome VersionsError VersionsInfo)
        → (set_local s (local_or_new s.status.local) o).1 ≡ ok tt
        → IsInStep (set_local s (local_or_new s.status.local) o).0
    by_outcome (ok v) e = update_and_save-IsInStep s _
    by_outcome (throws t) e = absurd (cc e)

when_present {ℓ} :
    {A : Type 0} (P : Option A → Type ℓ)
    → ((a : A) → P (some a))
    → (o : Option A) → IsPresent o
    → P o
when_present P h none absent = absurd absent
when_present P h (some a) present = h a

abbrev with_local : ObjStatus → Option LocalVersions → ObjStatus
with_local s l = record s { status = record s.status { local = l } }

abbrev with_marker : ObjStatus → Option SyncMarker → ObjStatus
with_marker s y = record s { status = record s.status { synced = y } }

-- A state indicator that shows the state of the status shows it after every method that changes the
-- status, also where that throws, but for five methods that need a condition: for completion of an
-- upload there are local versions, for setting of a local version there are or it returns, and for
-- removal and addition of an archived version and for the status that the server tells of there is a
-- marker of what is synced.
pub Recorded-IsInStep : {s s' : ObjStatus} → Recorded s s' → IsInStep s → IsInStep s'
unfolding archive_current_version adopt_remote_version
Recorded-IsInStep {s} postponement_cleared h =
    clears s.status.local s.status.synced s.status.remote s.state_indicator s.saves s.status.upload
      h
Recorded-IsInStep {s} current_removed h =
    removes s.status.local s.status.synced s.status.remote s.state_indicator s.saves s.status.upload
      h
Recorded-IsInStep {s} (upload_started info) h =
    starts s.status.local s.status.synced s.status.remote s.state_indicator s.saves s.status.upload
      info h
Recorded-IsInStep {s} (upload_gone_on info) h =
    goes_on s.status.local s.status.synced s.status.remote s.state_indicator s.saves s.status.upload
      info h
Recorded-IsInStep {s} (upload_cancelled info) h =
    cancels s.status.local s.status.synced s.status.remote s.state_indicator s.saves s.status.upload
      info h
Recorded-IsInStep {s} removed_on_remote h = removed_remotely s h
Recorded-IsInStep {s} removal_completed h =
    completes_removal s.status.local s.status.synced s.status.remote s.state_indicator s.saves
      s.status.upload h
Recorded-IsInStep {s} (remote_changed version) h = changes_remotely s version h
Recorded-IsInStep {s} (upload_completed local_version version present) h =
    when_present
      (λ l.
        IsInStep (with_local s l)
        → Keeps (record_upload_completion (with_local s l) local_version version))
      (λ local.
        completes s.status.synced s.status.remote s.state_indicator s.saves local s.status.upload
          local_version version)
      s.status.local present h
Recorded-IsInStep {s} (archived_version_removed version present) h =
    when_present
      (λ y.
        IsInStep (with_marker s y)
        → IsInStep (record_arch_version_removal (with_marker s y) version))
      (λ m.
        archived_removed s.status.local m s.status.remote s.status.upload s.state_indicator s.saves
          version)
      s.status.synced present h
Recorded-IsInStep {s} (version_archived version present) h =
    when_present
      (λ y.
        IsInStep (with_marker s y) → IsInStep (record_version_archival (with_marker s y) version))
      (λ m.
        archived_added s.status.local m s.status.remote s.status.upload s.state_indicator s.saves
          version)
      s.status.synced present h
Recorded-IsInStep {s} (status_told archived current present) h =
    when_present
      (λ y.
        IsInStep (with_marker s y)
        → IsInStep (record_status_from_server (with_marker s y) archived current))
      (λ m.
        server_told s.status.local m s.status.remote s.status.upload s.state_indicator s.saves
          archived current)
      s.status.synced present h
Recorded-IsInStep {s} (local_version_set version base (inl present)) h =
    when_present
      (λ l.
        IsInStep (with_local s l) → Keeps (set_local_current_version (with_local s l) version base))
      (λ local.
        sets_local s.status.synced s.status.remote s.state_indicator s.saves local s.status.upload
          version base)
      s.status.local present h
Recorded-IsInStep {s} (local_version_set version base (inr returns)) h =
    sets_new_local s version base returns
Recorded-IsInStep {s} current_archived h = archives_in s.status.synced h
  where
    archives_in :
        (y : Option SyncMarker)
        → IsInStep (with_marker s y)
        → Keeps (archive_current_version (with_marker s y))
    archives_in none h' = h'
    archives_in (some m) h' =
        archives_marked s.status.local m s.status.remote s.status.upload s.state_indicator s.saves
          m.version h'
Recorded-IsInStep {s} (base_absorbed version base) h =
    absorbs s.status.synced s.status.remote s.state_indicator s.saves s.status.local s.status.upload
      version base h
Recorded-IsInStep {s} (remote_adopted version) h = adopts_in_state s.state_indicator s version h
