-- ===== src/Retry/Start.antt =====
-- The start of the reconnect settings: `addInterfaces` and `addRmediaInterface` of
-- src/vm_interface.cpp. The interface for the image URLs is that of `ImageUrls`.
use virtual_media.Base.{ℕ, ◌≡◌, true, false, none, some, List, [], ◌∷◌, Result, ok, err, type_error}
use virtual_media.Retry.{Document, Interface, Disk, parses, load_json}

-- An interface that is made anew, with the file of the one before.
abbrev pub restarted : Document → Interface
restarted file = record {
  retry_count = 0;
  retry_interval = 0;
  is_registered = false;
  json_data = record { count = none; interval = none };
  file = file;
}

-- `addRmediaInterface`: the conversion of a missing value throws.
unfoldable pub add_rmedia_interface : Interface → Result Interface
add_rmedia_interface s = elim s.json_data.count [
  | none ↦ err type_error
  | some n ↦ elim s.json_data.interval [
    | none ↦ err type_error
    | some m ↦ ok (record s { retry_count = n; retry_interval = m; is_registered = true })
  ]
]

-- `addInterfaces`: what `loadJson` returns is not looked at.
unfoldable pub add_interfaces : Disk → Interface → Result Interface
unfolding load_json add_rmedia_interface
add_interfaces disk s = add_rmedia_interface (load_json disk s)

abbrev pub AllWritable : List (Disk × (ℕ × ℕ)) → Type 0
AllWritable [] = Unit
AllWritable ((disk, settings) ∷ calls) =
    ((disk.reading ≡ parses) × (disk.can_write ≡ true)) × AllWritable calls
