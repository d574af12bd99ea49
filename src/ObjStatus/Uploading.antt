-- ===== src/ObjStatus/Uploading.antt =====
-- An upload that is recorded, goes on and is cancelled, in `ObjStatus` of
-- ts-code/core/storage/synced/obj-status.ts.
use core_3nweb_client_lib.Base.{
  ℕ, suc, ◌+◌, ◌≡◌, ◌≢◌, refl, sym, ap, ◌∙◌, arith, Option, none, some, List, [], ◌∷◌, All, length,
  ◌==◌, ==_refl, ==_iff, ok, throws, Bool-cases, if_cases, if◌then◌else◌, inl, inr,
}
use core_3nweb_client_lib.StatusInfo.{
  NewVersionUpload, UploadInfo, new_version, versions_dont_match,
}
use core_3nweb_client_lib.ObjStatus.{
  ObjStatus, Done, save, record_upload_start, record_upload_interim_state,
  record_upload_cancellation, local_current,
}

abbrev go_on : Done (Unit {0}) → (ObjStatus → Done (Unit {0})) → Done (Unit {0})
go_on (s, throws e) next = (s, throws e)
go_on (s, ok done) next = next s

-- Calls of `recordUploadInterimState` one after another, up to one that throws.
abbrev pub record_all : ObjStatus → List NewVersionUpload → Done (Unit {0})
record_all s [] = (s, ok tt)
record_all s (info ∷ infos) = go_on (record_upload_interim_state s info) (λ s'. record_all s' infos)

abbrev pub last_of : NewVersionUpload → List NewVersionUpload → NewVersionUpload
last_of info [] = info
last_of info (next ∷ infos) = last_of next infos

-- The status with an upload, and the number of calls that saved it.
abbrev pub uploading : ObjStatus → Option UploadInfo → ℕ → ObjStatus
uploading s upload saves = record s { status = record s.status { upload = upload }; saves = saves }

interim_state-eq :
    (s : ObjStatus) (info next : NewVersionUpload) (n : ℕ)
    → next.upload_version ≡ info.upload_version
    → record_upload_interim_state (uploading s (some (new_version info)) n) next
      ≡ (uploading s (some (new_version next)) (suc n), ok tt)
unfolding record_upload_interim_state save
interim_state-eq s info next n e = rw (e, ==_refl info.upload_version) refl

record_all-eq :
    (s : ObjStatus) (info : NewVersionUpload) (n ver : ℕ) (infos : List NewVersionUpload)
    → info.upload_version ≡ ver
    → All (λ (i : NewVersionUpload). i.upload_version ≡ ver) infos
    → record_all (uploading s (some (new_version info)) n) infos
      ≡ (uploading s (some (new_version (last_of info infos))) (n + length infos), ok tt)
record_all-eq s info n ver [] e all =
    ap (λ (k : ℕ). (uploading s (some (new_version info)) k, ok tt)) (omega arith)
record_all-eq s info n ver (next ∷ infos) e (h, hs) =
    ap (λ (d : Done (Unit {0})). go_on d (λ s'. record_all s' infos))
      (interim_state-eq s info next n (h ∙ sym e))
    ∙ record_all-eq s next (suc n) ver infos h hs
    ∙ ap (λ (k : ℕ). (uploading s (some (new_version (last_of next infos))) k, ok tt)) (omega arith)

last_of-upload_version :
    (info : NewVersionUpload) (infos : List NewVersionUpload) (ver : ℕ)
    → info.upload_version ≡ ver
    → All (λ (i : NewVersionUpload). i.upload_version ≡ ver) infos
    → (last_of info infos).upload_version ≡ ver
last_of-upload_version info [] ver e all = e
last_of-upload_version info (next ∷ infos) ver e (h, hs) =
    last_of-upload_version next infos ver h hs

start-eq :
    (s : ObjStatus) (info : NewVersionUpload)
    → s.status.upload ≡ none
    → local_current s.status.local ≡ some info.local_version
    → record_upload_start s info ≡ (uploading s (some (new_version info)) (suc s.saves), ok tt)
unfolding record_upload_start save
start-eq s info no_upload current = rw no_upload (rw current (rw (==_refl info.local_version) refl))

cancellation-eq :
    (s : ObjStatus) (info given : NewVersionUpload) (n : ℕ)
    → info.upload_version ≡ given.upload_version
    → record_upload_cancellation (uploading s (some (new_version info)) n) given
      ≡ (uploading s none (suc n), ok tt)
unfolding record_upload_cancellation save
cancellation-eq s info given n e = rw (e, ==_refl given.upload_version) refl

other_cancellation-eq :
    (s : ObjStatus) (info given : NewVersionUpload) (n : ℕ)
    → info.upload_version ≢ given.upload_version
    → record_upload_cancellation (uploading s (some (new_version info)) n) given
      ≡ (uploading s (some (new_version info)) n, throws versions_dont_match)
unfolding record_upload_cancellation
other_cancellation-eq s info given n differs =
    elim (Bool-cases (info.upload_version == given.upload_version)) [
      | inl e ↦ absurd (differs ((==_iff _ _).0 e))
      | inr e ↦ rw e refl
    ]

-- Without an upload, and for the current local version: `recordUploadStart` returns and the upload is
-- in the status; any calls of `recordUploadInterimState` with the same upload version return, and the
-- status has what the last of them was given; then `recordUploadCancellation` with that version
-- returns and leaves the status as it was before the start, each call having saved it once, and with
-- any other version it throws and changes nothing.
pub record_upload_cancellation-record_all :
    (s : ObjStatus) (info : NewVersionUpload) (infos : List NewVersionUpload)
    (given : NewVersionUpload)
    → s.status.upload ≡ none
    → local_current s.status.local ≡ some info.local_version
    → All (λ (i : NewVersionUpload). i.upload_version ≡ info.upload_version) infos
    → let started = record_upload_start s info in
      let going = record_all started.0 infos in
      let last =
        uploading s (some (new_version (last_of info infos))) (suc s.saves + length infos) in
      (started ≡ (uploading s (some (new_version info)) (suc s.saves), ok tt))
      × (going ≡ (last, ok tt))
      × (record_upload_cancellation going.0 given ≡ (
          if given.upload_version == info.upload_version
          then (record s { saves = s.saves + length infos + 2 }, ok tt)
          else (last, throws versions_dont_match)))
record_upload_cancellation-record_all s info infos given no_upload current all = (
  start,
  goes,
  if_cases
      (λ (d : Done (Unit {0})).
        record_upload_cancellation (record_all (record_upload_start s info).0 infos).0 given ≡ d)
      (given.upload_version == info.upload_version) (λ e. cancelled ((==_iff _ _).0 e))
      (λ e. not_cancelled (λ same.
        absurd
          (cc (e, ==_refl info.upload_version, ap (λ (k : ℕ). k == info.upload_version) same)))),
)
  where
    started : ObjStatus
    started = uploading s (some (new_version info)) (suc s.saves)

    last : ObjStatus
    last = uploading s (some (new_version (last_of info infos))) (suc s.saves + length infos)

    start : record_upload_start s info ≡ (started, ok tt)
    start = start-eq s info no_upload current

    goes : record_all (record_upload_start s info).0 infos ≡ (last, ok tt)
    goes =
        ap (λ (d : Done (Unit {0})). record_all d.0 infos) start
        ∙ record_all-eq s info (suc s.saves) info.upload_version infos refl all

    same_version : (last_of info infos).upload_version ≡ info.upload_version
    same_version = last_of-upload_version info infos info.upload_version refl all

    cancelled :
        given.upload_version ≡ info.upload_version
        → record_upload_cancellation (record_all (record_upload_start s info).0 infos).0 given
          ≡ (record s { saves = s.saves + length infos + 2 }, ok tt)
    cancelled e =
        ap (λ (d : Done (Unit {0})). record_upload_cancellation d.0 given) goes
        ∙ cancellation-eq s (last_of info infos) given _ (same_version ∙ sym e)
        ∙ ap (λ (k : ℕ). (uploading s none k, ok tt)) (omega arith)
        ∙ ap (λ (u : Option UploadInfo). (uploading s u (s.saves + length infos + 2), ok tt))
            (sym no_upload)

    not_cancelled :
        given.upload_version ≢ info.upload_version
        → record_upload_cancellation (record_all (record_upload_start s info).0 infos).0 given
          ≡ (last, throws versions_dont_match)
    not_cancelled differs =
        ap (λ (d : Done (Unit {0})). record_upload_cancellation d.0 given) goes
        ∙ other_cancellation-eq s (last_of info infos) given _ (λ e. differs (sym e ∙ same_version))
