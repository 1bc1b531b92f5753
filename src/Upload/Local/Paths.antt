-- ===== src/Upload/Local/Paths.antt =====
-- Paths of the local storage: `filepath.Join` and `filepath.Clean` as pkg/upload/local.go uses them,
-- on elements between slashes. A cleaned path is kept as its elements, the last one first.
use dgou_framework.Base.{
  ℕ, ◌==◌, ◌||◌, Bool, true, false, List, [], ◌∷◌, ◌++◌, if◌then◌else◌, Str, codes, str_eq,
}

abbrev pub is_empty : Str → Bool
is_empty [] = true
is_empty (c ∷ s) = false

abbrev pub prepend : ℕ → List Str → List Str
prepend c [] = (c ∷ []) ∷ []
prepend c (e ∷ es) = (c ∷ e) ∷ es

-- the elements between the slashes
unfoldable pub elements : Str → List Str
elements [] = [] ∷ []
elements (c ∷ s) = let rest = elements s in if c == b'/' then [] ∷ rest else prepend c rest

abbrev pub is_rooted : Str → Bool
is_rooted [] = false
is_rooted (c ∷ s) = c == b'/'

-- What `..` does to the elements so far: it takes the last one off, or stays at the root, or is kept
-- at the front of a path that is not rooted.
unfoldable pub up : Bool → List Str → List Str
up rooted [] = if rooted then [] else codes ".." ∷ []
up rooted (e ∷ es) = if str_eq e (codes "..") then codes ".." ∷ e ∷ es else es

unfoldable pub enter : Bool → List Str → Str → List Str
unfolding up
enter rooted es e =
    if is_empty e || str_eq e (codes ".")
    then es
    else if str_eq e (codes "..")
    then up rooted es
    else e ∷ es

-- the elements of a path, from a place
unfoldable pub walk : Bool → List Str → List Str → List Str
unfolding enter
walk rooted es [] = es
walk rooted es (e ∷ path) = walk rooted (enter rooted es e) path

-- The text of elements, of which the last comes first.
unfoldable pub print_elements : List Str → Str
print_elements [] = []
print_elements (e ∷ []) = e
print_elements (e ∷ d ∷ es) = print_elements (d ∷ es) ++ codes "/" ++ e

unfoldable pub print_path : Bool → List Str → Str
unfolding print_elements
print_path true es = codes "/" ++ print_elements es
print_path false [] = codes "."
print_path false (e ∷ es) = print_elements (e ∷ es)

-- `filepath.Clean`
unfoldable pub clean : Str → Str
unfolding walk elements print_path
clean s = print_path (is_rooted s) (walk (is_rooted s) [] (elements s))

-- `filepath.Join` of two elements, where the empty ones are left out
unfoldable pub join_path : Str → Str → Str
unfolding clean
join_path [] [] = []
join_path [] (c ∷ path) = clean (c ∷ path)
join_path (b ∷ base) [] = clean (b ∷ base)
join_path (b ∷ base) (c ∷ path) = clean ((b ∷ base) ++ codes "/" ++ c ∷ path)

abbrev rest_of : List Str → List Str
rest_of [] = []
rest_of (e ∷ es) = es

-- `filepath.Dir` and `filepath.Base` of a cleaned path
unfoldable pub dir_name : Str → Str
unfolding walk elements print_path
dir_name s = print_path (is_rooted s) (rest_of (walk (is_rooted s) [] (elements s)))
