-- ===== src/Golang/Disk.antt =====
-- The functions of os that the program calls, on a disk that is a map from paths to files and
-- directories. What the system refuses, for reasons of its own, is a parameter.
pub mod Kept
use attacknet.Base.{
  and_then, ◌≡◌, ◌⊎◌, inl, inr, refl, Bool, true, false, ◌||◌, Option, none, some, [], ◌∷◌,
  if◌then◌else◌, String, Outcome, ok, err, failure,
}
use attacknet.Base.Dict.{Dict, lookup, insert, has_key}
use attacknet.Base.Text.{◌++◌, str_eq}

pub data Entry : Type 0 where
  file : String → Entry
  directory : Entry

abbrev pub Disk : Type 0
Disk = Dict Entry

pub data Call : Type 0 where
  to_stat to_read to_remove to_create to_write to_close to_make : Call

-- os.Getwd, and the calls that fail although the disk would allow them.
pub record Os : Type 0 where
  pub getwd : Option String
  pub refuses : Call → String → Bool

pub data Stat : Type 0 where
  found not_exist unknown : Stat

pub Stat-cases : (s : Stat) → (s ≡ found) ⊎ ((s ≡ not_exist) ⊎ (s ≡ unknown))
Stat-cases found = inl refl
Stat-cases not_exist = inr (inl refl)
Stat-cases unknown = inr (inr refl)

unfoldable pub stat : Os → String → Disk → Stat
unfolding has_key
stat os path disk =
    if os.refuses to_stat path then unknown else if has_key path disk then found else not_exist

unfoldable pub without : String → Disk → Disk
without path [] = []
without path ((name, entry) ∷ rest) =
    let more = without path rest in if str_eq name path then more else (name, entry) ∷ more

abbrev failed : String → Disk → Outcome (Unit {0}) × Disk
failed message disk = (err (failure message), disk)

-- os.Remove
unfoldable pub remove : Os → String → String → Disk → Outcome (Unit {0}) × Disk
unfolding has_key without
remove os message path disk =
    if os.refuses to_remove path
    then failed message disk
    else if has_key path disk
    then (ok tt, without path disk)
    else failed message disk

abbrev pub is_directory : Option Entry → Bool
is_directory (some directory) = true
is_directory _ = false

-- os.Create, which empties a file that is there.
unfoldable pub create : Os → String → String → Disk → Outcome (Unit {0}) × Disk
unfolding lookup insert
create os message path disk =
    if os.refuses to_create path || is_directory (lookup path disk)
    then failed message disk
    else (ok tt, insert path (file "") disk)

abbrev pub contents : Option Entry → String
contents (some (file text)) = text
contents _ = ""

-- Write on an open file, at its end.
unfoldable pub write : Os → String → String → String → Disk → Outcome (Unit {0}) × Disk
unfolding lookup insert
write os message path text disk =
    if os.refuses to_write path
    then failed message disk
    else (ok tt, insert path (file (contents (lookup path disk) ++ text)) disk)

-- Close of an open file
unfoldable pub close_file : Os → String → String → Disk → Outcome (Unit {0}) × Disk
close_file os message path disk =
    if os.refuses to_close path then failed message disk else (ok tt, disk)

-- Opens, writes and closes one file, with the errors of the three.
unfoldable pub write_out :
    Os → (open_error write_error close_error path text : String) → Disk → Outcome (Unit {0}) × Disk
unfolding create write close_file
write_out os open_error write_error close_error path text disk =
    and_then (create os open_error path disk) (λ _ d.
      and_then (write os write_error path text d) (λ _ d'. close_file os close_error path d'))

-- os.Mkdir
unfoldable pub mkdir : Os → String → String → Disk → Outcome (Unit {0}) × Disk
unfolding has_key insert
mkdir os message path disk =
    if os.refuses to_make path || has_key path disk
    then failed message disk
    else (ok tt, insert path directory disk)

abbrev text_of : Option Entry → Option String
text_of (some (file text)) = some text
text_of _ = none

-- os.ReadFile
unfoldable pub read_file : Os → String → Disk → Option String
unfolding lookup
read_file os path disk = if os.refuses to_read path then none else text_of (lookup path disk)
