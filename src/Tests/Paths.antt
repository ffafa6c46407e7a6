-- ===== src/Tests/Paths.antt =====
-- The checks on paths, and DELETE.
use cmogstored.Prelude.{
  some, ◌<◌, Bytes, [], ◌∷◌, ◌++◌, true, false, Option, none, ◌≡◌, ◌≢◌, refl, ◌↔◌, ◌⊎◌, length,
  codes,
}
use cmogstored.ValidPath.{valid_path, valid_put_path, ends_in_slash}
use cmogstored.ValidPath.Traversal.{
  HasDotDot, components, stays_inside, valid_path_iff, valid_path-stays_inside,
}
use cmogstored.ValidPath.PutPath.{IsDevPath, valid_put_path_iff}
use cmogstored.TryWrite.{wrote}
use cmogstored.Http.State.{unlinked, Errno}
use cmogstored.Http.Response.{http_path, http_resp}
use cmogstored.Http.Get.{is_root}
use cmogstored.Http.Dav.{is_httpget, http_delete}
use cmogstored.Http.Dav.Safe.{refuses, http_delete-safe}
use cmogstored.Tests.{client, request}

valid_path_iff_example :
    (valid_path (codes "/dev1/../x") ≡ true)
    ↔ ((length (codes "/dev1/../x") < 38) × ¬ HasDotDot (codes "/dev1/../x"))
valid_path_iff_example = valid_path_iff (codes "/dev1/../x")

valid_path-stays_inside_example : stays_inside 0 (components (codes "/dev1/./x")) ≡ true
unfolding valid_path
valid_path-stays_inside_example = valid_path-stays_inside (codes "/dev1/./x") refl

valid_put_path_iff_example : (valid_put_path (codes "/dev1/0") ≡ true) ↔ (
    (codes "/dev1/0" ≢ [])
    × (ends_in_slash (codes "/dev1/0") ≡ false)
    × ((rest : Bytes) × IsDevPath (codes "/dev1/0" ++ rest)))
valid_put_path_iff_example = valid_put_path_iff (codes "/dev1/0")

abbrev unlink_ok : Bytes → Option Errno
unlink_ok path = none

http_delete-safe_example :
    let h' = http_delete client request unlink_ok (codes "now") (wrote 500 ∷ []) in
    ((status : Bytes) × (refuses status ≡ true)
      × (h'.calls ≡ client.calls)
      × (h' ≡ http_resp client status true (codes "now") (wrote 500 ∷ [])))
    ⊎ ((path : Bytes) × ((http_path client request).0 ≡ some path)
        × (is_httpget client.fd_type ≡ false)
        × (unlink_ok path ≡ none)
        × (is_root path ≡ false)
        × (length path < 38)
        × (¬ HasDotDot path)
        × (h'
            ≡ http_resp
                (record client { calls = client.calls ++ unlinked path ∷ [] })
                (codes "204 No Content")
                true
                (codes "now")
                (wrote 500 ∷ [])))
http_delete-safe_example = http_delete-safe client request unlink_ok (codes "now") (wrote 500 ∷ [])
