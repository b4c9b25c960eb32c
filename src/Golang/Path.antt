-- ===== src/Golang/Path.antt =====
-- Clean and Join of path/filepath, which agree with those of path where the program runs.
use attacknet.Base.{Bool, false, ◌||◌, List, [], ◌∷◌, ◌==◌, if◌then◌else◌, String}
use attacknet.Base.Text.{◌++◌, str_eq, split}
use Prim.Native.Char.{code}

-- An element "..": it takes the last directory away. `kept` is in reverse.
unfoldable pub go_back : Bool → List String → List String
go_back rooted [] = if rooted then [] else ".." ∷ []
go_back rooted (top ∷ kept) = if str_eq top ".." then ".." ∷ top ∷ kept else kept

unfoldable pub clean_parts : Bool → List String → List String → List String
unfolding go_back
clean_parts rooted kept [] = kept
clean_parts rooted kept (part ∷ parts) =
    let skip = clean_parts rooted kept parts in
    let back = clean_parts rooted (go_back rooted kept) parts in
    let keep = clean_parts rooted (part ∷ kept) parts in
    if str_eq part "" || str_eq part "." then skip else if str_eq part ".." then back else keep

unfoldable pub joined : List String → String
joined [] = ""
joined (part ∷ []) = part
joined (part ∷ before) = joined before ++ ("/" ++ part)

unfoldable pub is_rooted : String → Bool
is_rooted String.[] = false
is_rooted (String.◌∷◌ c s) = code c == b'/'

abbrev or_dot : String → String
or_dot path = if str_eq path "" then "." else path

-- filepath.Clean
unfoldable pub clean : String → String
unfolding clean_parts joined is_rooted split
clean path =
    let kept = clean_parts (is_rooted path) [] (split b'/' path) in
    if is_rooted path then "/" ++ joined kept else or_dot (joined kept)

-- strings.Join(parts, "/")
unfoldable pub join_slash : List String → String
join_slash [] = ""
join_slash (part ∷ []) = part
join_slash (part ∷ parts) = part ++ ("/" ++ join_slash parts)

-- filepath.Join, which starts at the first element that is not empty.
unfoldable pub join : List String → String
unfolding clean join_slash
join [] = ""
join (part ∷ parts) =
    let rest = join parts in if str_eq part "" then rest else clean (join_slash (part ∷ parts))
