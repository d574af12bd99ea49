-- ===== src/StatusInfo/Bytes.antt =====
-- `countBytesIn` and `uploadInStatus` of ts-code/core/storage/synced/obj-status.ts.
use core_3nweb_client_lib.Base.{
  ℕ, ◌+◌, ◌≡◌, refl, sym, ap, arith, truthy, if◌then◌else◌, Option, none, some,
}
use core_3nweb_client_lib.StatusInfo.{
  UploadInfo, UploadingState, new_version, removal, ordered_whole, ordered_diff, NeedUpload,
  bytes_left_in, upload_in_status, count_bytes_in, header_bytes_of, add_lens, NewVersionUpload,
}

abbrev pub bytes_left : Option UploadingState → ℕ
bytes_left none = 0
bytes_left (some s) = s.bytes_left_to_upload

header_if_truthy : (h : Option ℕ) → (if truthy h then header_bytes_of h else 0) ≡ header_bytes_of h
header_if_truthy none = refl
header_if_truthy (some n) = ground arith

abbrev count_of_need : Option NeedUpload → ℕ
count_of_need none = 0
count_of_need (some (ordered_whole w)) = w.segs_left + header_bytes_of w.header
count_of_need (some (ordered_diff d)) = add_lens (header_bytes_of d.header) d.new_segs_left

bytes_left-need : (need : NeedUpload) → bytes_left_in need ≡ count_of_need (some need)
unfolding bytes_left_in
bytes_left-need (ordered_whole w) = omega (arith, header_if_truthy w.header)
bytes_left-need (ordered_diff d) =
    ap (λ (t : ℕ). add_lens t d.new_segs_left) (header_if_truthy d.header)

-- `countBytesIn` counts the bytes that `uploadInStatus` says are left, for every upload.
pub count_bytes_in-upload_in_status :
    (up : UploadInfo) → count_bytes_in up ≡ bytes_left (upload_in_status (some up))
unfolding count_bytes_in upload_in_status
count_bytes_in-upload_in_status (removal up) = refl
count_bytes_in-upload_in_status (new_version up) = by_need up up.need_upload refl
  where
    by_need :
        (up : NewVersionUpload) (need : Option NeedUpload)
        → up.need_upload ≡ need
        → count_bytes_in (new_version up) ≡ bytes_left (upload_in_status (some (new_version up)))
    by_need up none e = rw e refl
    by_need up (some (ordered_whole w)) e = rw e (sym (bytes_left-need (ordered_whole w)))
    by_need up (some (ordered_diff d)) e = rw e (sym (bytes_left-need (ordered_diff d)))
