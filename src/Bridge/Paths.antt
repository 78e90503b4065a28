-- ===== src/Bridge/Paths.antt =====
-- path/filepath on Unix, as bridge/main.go and bridge/config.go use it: Clean, Join and Ext.
use mathlib.Core.List.{reverse}
use relayent.Base.{
  ℕ, Text, codes, ◌==◌, ◌==ℕ◌, ◌&&◌, ◌||◌, not, Bool, true, false, List, [], ◌∷◌, ◌++◌,
  if◌then◌else◌,
}
use relayent.Strings.{split, join}
use relayent.Strings.Split.{occurs}
use relayent.Strings.Decimal.{itoa}

abbrev pub slash : ℕ
slash = b'/'

-- An element that Clean drops, and the one that drops the element before it.
abbrev pub is_here : Text → Bool
is_here c = c == [] || c == codes "."

abbrev pub is_parent : Text → Bool
is_parent c = c == codes ".."

-- The elements that are kept, the last one first, after a `..`.
unfoldable pub leave : Bool → List Text → List Text
leave rooted [] = if rooted then [] else codes ".." ∷ []
leave rooted (last ∷ out) = if is_parent last then codes ".." ∷ last ∷ out else out

unfoldable pub clean_step : Bool → List Text → Text → List Text
unfolding leave
clean_step rooted out c =
    if is_here c then out else if is_parent c then leave rooted out else c ∷ out

unfoldable pub clean_elements : Bool → List Text → List Text → List Text
clean_elements rooted out [] = out
clean_elements rooted out (c ∷ cs) = clean_elements rooted (clean_step rooted out c) cs

abbrev pub abs_path : List Text → Text
abs_path cs = slash ∷ join slash cs

abbrev pub or_dot : List Text → Text
or_dot [] = codes "."
or_dot (c ∷ cs) = join slash (c ∷ cs)

-- filepath.Clean
unfoldable pub clean : Text → Text
unfolding clean_elements
clean [] = codes "."
clean (c ∷ s) =
    if c ==ℕ slash
    then abs_path (reverse (clean_elements true [] (split slash s)))
    else or_dot (reverse (clean_elements false [] (split slash (c ∷ s))))

-- filepath.Join of two elements
unfoldable pub join_path : Text → Text → Text
unfolding clean
join_path [] [] = []
join_path [] (c ∷ s) = clean (c ∷ s)
join_path (c ∷ s) t = clean ((c ∷ s) ++ slash ∷ t)

-- filepath.Ext: from the last dot, unless a slash follows it.
unfoldable pub path_ext : Text → Text
path_ext [] = []
path_ext (c ∷ s) =
    if c ==ℕ b'.' && (not (occurs b'.' s) && not (occurs slash s)) then c ∷ s else path_ext s

-- The path of an attachment in `writeAttachments`
unfoldable pub attachment_file : Text → ℕ → Text → Text
attachment_file job i name =
    codes "attachment-" ++ (job ++ (codes "-" ++ (itoa i ++ path_ext name)))

unfoldable pub attachment_path : Text → Text → ℕ → Text → Text
unfolding attachment_file
attachment_path workspace job i name = join_path workspace (attachment_file job i name)
