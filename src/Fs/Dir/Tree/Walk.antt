-- ===== src/Fs/Dir/Tree/Walk.antt =====
-- The walk along a path ends.
use shmily.Base.{
  ℕ, zero, suc, ◌+◌, ◌<◌, ◌≡◌, refl, ◌==◌, Option, none, some, List, [], ◌∷◌, length, arith,
  Bool-cases, Option-cases, inl, inr,
}
use shmily.Fs.Volume.{Inode, Volume}
use shmily.Fs.Inode.{ino2inode}
use shmily.Fs.Dir.{slash, find_dir_entry}
use shmily.Fs.Dir.Path.{component, split_path}
use shmily.Fs.Dir.Tree.{is_root, go_on, walk}

-- What is behind a part is shorter than the path.
Shorter : Option (List ℕ) → ℕ → Type 0
Shorter none n = Unit {0}
Shorter (some path) n = length path < n

Shorter-weaken : (r : Option (List ℕ)) (n : ℕ) → Shorter r n → Shorter r (suc n)
unfolding Shorter
Shorter-weaken none n h = tt
Shorter-weaken (some path) n h = omega arith

component-Shorter : (path : List ℕ) → Shorter (component path).1 (length path)
unfolding component Shorter
component-Shorter [] = tt
component-Shorter (c ∷ path) = elim (Bool-cases (slash == c)) [
  | inl e ↦ rw e (omega arith)
  | inr e ↦ rw e (Shorter-weaken (component path).1 (length path) (component-Shorter path))
]

split_path-Shorter : (path : List ℕ) → Shorter (split_path path).1 (length path)
unfolding split_path Shorter
split_path-Shorter [] = tt
split_path-Shorter (c ∷ path) = elim (Bool-cases (slash == c)) [
  | inl e ↦ rw e (omega arith)
  | inr e ↦ rw e (Shorter-weaken (component path).1 (length path) (component-Shorter path))
]

Ends : Option (Option ℕ) → Type 0
Ends none = ⊥
Ends (some r) = Unit {0}

go_on-Ends :
    (rest : Option (List ℕ)) (n : ℕ) (found : Option ℕ) (further : List ℕ → Option (Option ℕ))
    → Shorter rest n
    → ((path : List ℕ) → length path < n → Ends (further path))
    → Ends (go_on rest (some found) further)
unfolding Shorter Ends
go_on-Ends none n found further h f = tt
go_on-Ends (some path) n found further h f = f path h

walk-Ends :
    (v : Volume) (rounds : ℕ) (inode : Inode) (ino : ℕ) (path : List ℕ)
    → length path < rounds
    → Ends (walk v rounds inode ino path)
unfolding walk Ends
walk-Ends v zero inode ino path h = absurd (omega arith)
walk-Ends v (suc rounds) inode ino path h =
    let further = λ (i : Inode) (n : ℕ).
      go_on-Ends (split_path path).1 (length path) (some n) (walk v rounds i n)
        (split_path-Shorter path) (λ p lt. walk-Ends v rounds i n p (omega arith)) in
    elim (Bool-cases (is_root (split_path path).0)) [
      | inl e ↦ rw (e, walk) (further inode ino)
      | inr e ↦ elim (Option-cases (find_dir_entry v inode (split_path path).0)) [
        | inl missing ↦ rw (e, walk) (rw (missing, walk) tt)
        | inr (child, there) ↦ rw (e, walk) (rw (there, walk) (further (ino2inode v child) child))
      ]
    ]

-- The walk along a path ends within as many rounds as the path has bytes and one more: it never
-- runs out of the rounds that `dir_is_exists` gives it.
pub walk-ends :
    (v : Volume) (inode : Inode) (ino : ℕ) (path : List ℕ)
    → (r : Option ℕ) × (walk v (length path + 1) inode ino path ≡ some r)
unfolding Ends
walk-ends v inode ino path =
    ended (walk v (length path + 1) inode ino path)
      (walk-Ends v (length path + 1) inode ino path (omega arith))
  where
    ended : (o : Option (Option ℕ)) → Ends o → (r : Option ℕ) × (o ≡ some r)
    ended none h = absurd h
    ended (some r) h = (r, refl)
