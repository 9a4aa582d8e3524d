-- ===== src/Retry.antt =====
-- The reconnect settings of src/vm_interface.cpp: `SetAll`, `GetAll` and `loadJson`. A document is
-- reduced to its two keys; whether the file can be read and written is an argument.
pub mod Bounds
pub mod Start
pub mod ImageUrls
use virtual_media.Base.{
  ℕ, ◌≡◌, Bool, true, false, not, ◌&&◌, ◌||◌, Option, none, some, List, [], ◌∷◌, if◌then◌else◌, ltb,
  ◌==◌,
}

abbrev pub min_retry_count : ℕ
min_retry_count = 3

abbrev pub max_retry_count : ℕ
max_retry_count = 6

abbrev pub min_retry_interval : ℕ
min_retry_interval = 15

abbrev pub max_retry_interval : ℕ
max_retry_interval = 30

-- The values of `RetryCount` and `RetryInterval` in a document; `none` where the key is missing or
-- holds no such number.
pub record Document : Type 0 where
  pub count : Option ℕ
  pub interval : Option ℕ

-- The interface with `jsonData`, the file, and whether the D-Bus interface is there.
pub record Interface : Type 0 where
  pub retry_count : ℕ
  pub retry_interval : ℕ
  pub is_registered : Bool
  pub json_data : Document
  pub file : Document

pub data Status : Type 0 where
  refused success unknown_status : Status

-- How the file reads: it does not open or parse, it holds null, or it holds an object.
pub data Reading : Type 0 where
  fails empty parses : Reading

pub record Disk : Type 0 where
  pub reading : Reading
  pub can_write : Bool

-- `loadJson`: a file that fails to read leaves the document of the last time.
unfoldable pub load_json : Disk → Interface → Interface
load_json disk s = elim disk.reading [
  | fails ↦ s
  | empty ↦ record s { json_data = record { count = none; interval = none } }
  | parses ↦ record s { json_data = s.file }
]

unfoldable pub is_allowed : ℕ → ℕ → Bool
is_allowed count interval = not (
    (ltb count min_retry_count || ltb max_retry_count count)
    || (ltb interval min_retry_interval || ltb max_retry_interval interval))

holds : Option ℕ → ℕ → Bool
holds none n = false
holds (some m) n = m == n

settings : Interface → Document
settings s = record { count = some s.retry_count; interval = some s.retry_interval }

-- The two keys are set in the document and the file is written, if one of them differs.
unfoldable pub save : Disk → Interface → Interface
unfolding holds settings
save disk s =
    if not (holds s.json_data.count s.retry_count)
      || not (holds s.json_data.interval s.retry_interval)
    then record s { json_data = settings s; file = if disk.can_write then settings s else s.file }
    else s

-- `SetAll`.
unfoldable pub set_all : Disk → ℕ → ℕ → Interface → Interface × Status
unfolding load_json is_allowed save
set_all disk count interval s =
    if not (is_allowed count interval)
    then (s, refused)
    else if s.retry_count == count && s.retry_interval == interval
    then (s, success)
    else (
      save disk (load_json disk (record s { retry_count = count; retry_interval = interval })),
      if s.is_registered then success else unknown_status,
    )

-- `GetAll`.
unfoldable pub get_all : Interface → ℕ × ℕ
get_all s = (s.retry_count, s.retry_interval)

-- Calls one after another.
unfoldable pub set_many : List (Disk × (ℕ × ℕ)) → Interface → Interface
unfolding set_all
set_many [] s = s
set_many ((disk, (count, interval)) ∷ calls) s = set_many calls (set_all disk count interval s).0
