-- ===== src/Pipeline/Paths.antt =====
-- The paths of pkg/pipeline/config.go, and what it uses of package path to build them.
use gemaal.Base.{
  List, [], ◌∷◌, ◌++◌, Bool, true, false, Text, codes, slash, split, text_eq, is_empty,
  if◌then◌else◌, ◌==◌,
}
use gemaal.Pipeline.{Config}

-- ".." takes the last element away, if that is not itself a ".." that must stay
abbrev pub up : Bool → List Text → List Text
unfolding text_eq
up rooted [] = if rooted then [] else codes ".." ∷ []
up rooted (s ∷ ss) = if text_eq s (codes "..") then codes ".." ∷ s ∷ ss else ss

abbrev pub clean_next : Bool → List Text → Text → List Text
unfolding text_eq
clean_next rooted kept s =
    if is_empty s
    then kept
    else if text_eq s (codes ".")
    then kept
    else if text_eq s (codes "..")
    then up rooted kept
    else s ∷ kept

-- the elements that are left, the last one first
abbrev clean_elements : Bool → List Text → List Text → List Text
clean_elements rooted kept [] = kept
clean_elements rooted kept (s ∷ ss) = clean_elements rooted (clean_next rooted kept s) ss

-- the elements, the last one first, with slashes between them and the rest behind
abbrev join_reversed : List Text → Text → Text
join_reversed [] rest = rest
join_reversed (s ∷ ss) rest = join_reversed ss (if is_empty rest then s else s ++ codes "/" ++ rest)

abbrev or_dot : Text → Text
or_dot t = if is_empty t then codes "." else t

-- path.Clean
unfoldable pub clean : Text → Text
unfolding split
clean [] = codes "."
clean (c ∷ s) =
    if c == slash
    then slash ∷ join_reversed (clean_elements true [] (split s slash)) []
    else or_dot (join_reversed (clean_elements false [] (split (c ∷ s) slash)) [])

-- path.Join of two elements
unfoldable pub join : Text → Text → Text
unfolding clean
join [] [] = []
join [] (d ∷ t) = clean (d ∷ t)
join (c ∷ s) [] = clean (c ∷ s)
join (c ∷ s) (d ∷ t) = clean ((c ∷ s) ++ codes "/" ++ (d ∷ t))

unfoldable pub charts_out : Config → Text
unfolding join
charts_out c = join c.dist_dir (codes "charts")

abbrev pub stamp_file_name : Text
stamp_file_name = codes ".release-type"

unfoldable pub stamp_path : Config → Text
unfolding join
stamp_path c = join (charts_out c) stamp_file_name

unfoldable pub manifest_path : Config → Text
unfolding join
manifest_path c = join c.dist_dir (codes "chart-manifest.yaml")
