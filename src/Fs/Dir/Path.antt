-- ===== src/Fs/Dir/Path.antt =====
-- fs/dir.cc, paths: the part in front of the next slash, and a path as its parent and the last name.
pub mod Join
use shmily.Base.{
  ℕ, zero, suc, ◌+◌, Bool, true, false, ◌==◌, ltb, if◌then◌else◌, Option, none, some, List, [], ◌∷◌,
  length,
}
use shmily.Fs.Dir.{slash}

-- The loop of `split_path`: the bytes up to a slash, and what is behind it.
unfoldable pub component : List ℕ → List ℕ × Option (List ℕ)
component [] = ([], none)
component (c ∷ path) =
    let (front, rest) = component path in if slash == c then ([], some path) else (c ∷ front, rest)

-- A slash at the front is a part of its own.
unfoldable pub split_path : List ℕ → List ℕ × Option (List ℕ)
unfolding component
split_path [] = ([], none)
split_path (c ∷ path) = if slash == c then (slash ∷ [], some path) else component (c ∷ path)

unfoldable pub count_slashes : List ℕ → ℕ
count_slashes [] = 0
count_slashes (c ∷ path) = (if slash == c then 1 else 0) + count_slashes path

-- The bytes up to and with the `n`-th slash, and what is behind it.
unfoldable pub copy_slashes : ℕ → List ℕ → List ℕ × List ℕ
copy_slashes zero path = ([], path)
copy_slashes (suc n) [] = ([], [])
copy_slashes (suc n) (c ∷ path) =
    let (front, rest) = copy_slashes (if slash == c then n else suc n) path in (c ∷ front, rest)

abbrev pub drop_last : List ℕ → List ℕ
drop_last [] = []
drop_last (c ∷ []) = []
drop_last (c ∷ d ∷ path) = c ∷ drop_last (d ∷ path)

-- A slash at the end goes.
unfoldable pub skip_last_slash : List ℕ → List ℕ
skip_last_slash [] = []
skip_last_slash (c ∷ []) = if slash == c then [] else c ∷ []
skip_last_slash (c ∷ d ∷ path) = c ∷ skip_last_slash (d ∷ path)

abbrev pub is_absolute : List ℕ → Bool
is_absolute [] = false
is_absolute (c ∷ path) = slash == c

-- The parent and the last name. The result NULL leaves the parent empty.
unfoldable pub split_path_2parts : List ℕ → List ℕ × Option (List ℕ)
unfolding count_slashes copy_slashes skip_last_slash
split_path_2parts path =
    let (front, name) = copy_slashes (count_slashes path) path in
    let parent = if ltb 1 (length front) then skip_last_slash (drop_last front) else front in
    if is_absolute path then (parent, some name) else ([], none)
