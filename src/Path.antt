-- ===== src/Path.antt =====
-- Python's `os.path.join` and `os.path.dirname`.
use alex_claw.Prelude.{
  Bool, true, false, ◌&&◌, ◌||◌, not, [], ◌∷◌, ◌++◌, reverse, if◌then◌else◌, eqb, is_empty,
}
use alex_claw.Text.{Text, rpartition, drop_while}

abbrev ends_slash : Text → Bool
ends_slash [] = false
ends_slash (c ∷ []) = eqb c b'/'
ends_slash (c ∷ d ∷ s) = ends_slash (d ∷ s)

abbrev is_absolute : Text → Bool
is_absolute [] = false
is_absolute (c ∷ s) = eqb c b'/'

-- `os.path.join(dir, name)`
unfoldable pub path_join : Text → Text → Text
path_join dir name =
    if is_absolute name
    then name
    else if is_empty dir || ends_slash dir
    then dir ++ name
    else dir ++ b'/' ∷ name

all_slashes : Text → Bool
all_slashes [] = true
all_slashes (c ∷ s) = eqb c b'/' && all_slashes s

-- `os.path.dirname`
unfoldable pub dirname : Text → Text
unfolding rpartition all_slashes drop_while
dirname path =
    let p = rpartition b'/' path in
    let head = p.before ++ b'/' ∷ [] in
    if not p.found
    then []
    else if all_slashes head
    then head
    else reverse (drop_while (λ c. eqb c b'/') (reverse head))
