-- ===== src/Url/Scheme.antt =====
-- Which scheme a URL has, and the path behind it (src/state/activating_state.cpp).
use virtual_media.Base.{
  ◌≡◌, refl, true, false, some, ◌++◌, Text, text_eq, text_eq_sound, text_eq_refl, take, length,
  take-length-append, drop-length-append, arith, take-append-drop, ◌↔◌, starts_with_split,
}
use virtual_media.Url.{
  check_url, get_image_path_from_url, get_image_path, is_https_url, is_cifs_url, is_nfs_url,
  https_scheme, cifs_scheme, nfs_scheme, is_local_file, local_prefix,
}

check_url-append : (scheme rest : Text) → check_url scheme (scheme ++ rest) ≡ true
unfolding check_url
check_url-append scheme rest = rw (take-length-append scheme rest) (text_eq_refl scheme)

-- A URL yields a path for a scheme exactly when it is the scheme followed by that path.
pub get_image_path_from_url_iff :
    (scheme url path : Text)
    → (get_image_path_from_url scheme url ≡ some path) ↔ (url ≡ scheme ++ path)
unfolding get_image_path_from_url
get_image_path_from_url_iff scheme url path = (
  λ h. ground (
    arith,
    text_eq_sound scheme (take (length scheme) url),
    take-append-drop (length scheme) url,
  ),
  λ e. rw e (
      rw (take-length-append scheme path)
        (rw (text_eq_refl scheme) (rw (drop-length-append scheme path)))),
)

-- Each URL of one of the three schemes has the path behind its scheme, and passes the tests of
-- no other scheme.
pub get_image_path-append :
    (path : Text)
    → ((get_image_path (https_scheme ++ path) ≡ path)
        × (get_image_path (cifs_scheme ++ path) ≡ path)
        × (get_image_path (nfs_scheme ++ path) ≡ path))
      × ((is_cifs_url (https_scheme ++ path) ≡ false)
          × (is_nfs_url (https_scheme ++ path) ≡ false)
          × (is_https_url (cifs_scheme ++ path) ≡ false)
          × (is_nfs_url (cifs_scheme ++ path) ≡ false)
          × (is_https_url (nfs_scheme ++ path) ≡ false)
          × (is_cifs_url (nfs_scheme ++ path) ≡ false))
unfolding get_image_path is_https_url is_cifs_url is_nfs_url text_eq
get_image_path-append path = ((refl, refl, refl), (refl, refl, refl, refl, refl, refl))

-- The path of a local file passes the test of no remote scheme.
pub is_local_file-schemes :
    (path : Text)
    → is_local_file path ≡ true
    → (is_https_url path ≡ false) × (is_cifs_url path ≡ false) × (is_nfs_url path ≡ false)
unfolding is_local_file is_https_url is_cifs_url is_nfs_url text_eq
is_local_file-schemes path h = rw (starts_with_split path local_prefix h) (refl, refl, refl)
