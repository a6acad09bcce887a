-- ===== src/Kv/Version/Files.antt =====
-- The files of a version by level and number, and what the operations of version.go do to them.
use lindb.Base.{
  ℕ, zero, suc, ◌^◌, ◌<◌, ◌≡◌, refl, ap, ◌∙◌, ◌&&◌, List, [], ◌∷◌, Option, none, some,
  if◌then◌else◌, ◌==◌, length, arith, All,
}
use lindb.Kv.Level.{
  FileMeta, Level, file_of, file_of-add_file, file_of-delete_file, IsKeyed, new_level,
}
use lindb.Kv.Level
use lindb.Kv.Version.{Version, in_levels, modify, add_file, delete_file}

-- The file of a level under a number, if there is one.
unfoldable pub file_in : List Level → ℕ → ℕ → Option FileMeta
file_in [] i n = none
file_in (l ∷ ls) zero n = file_of n l
file_in (l ∷ ls) (suc i) n = file_in ls i n

unfoldable pub file_at : Version → ℕ → ℕ → Option FileMeta
file_at v i n = file_in v.levels i n

-- The slice of levels is as long as `numOfLevels`, which is a positive int, and each level is
-- keyed by file number.
pub record IsVersion (v : Version) : Type 0 where
  pub sized : length v.levels ≡ v.num_of_levels
  pub positive : 0 < v.num_of_levels
  pub small : v.num_of_levels < 2 ^ 63
  pub keyed : All IsKeyed v.levels

length-modify {ℓ} :
    {A : Type ℓ} (i : ℕ) (f : A → A) (xs : List A) → length (modify i f xs) ≡ length xs
unfolding modify
length-modify i f [] = refl
length-modify zero f (x ∷ xs) = refl
length-modify (suc i) f (x ∷ xs) = ap suc (length-modify i f xs)

modify-All :
    (i : ℕ) (f : Level → Level) (ls : List Level)
    → ((l : Level) → IsKeyed l → IsKeyed (f l))
    → All IsKeyed ls
    → All IsKeyed (modify i f ls)
unfolding modify
modify-All i f [] k h = tt
modify-All zero f (x ∷ xs) k h = (k x h.0, h.1)
modify-All (suc i) f (x ∷ xs) k h = (h.0, modify-All i f xs k h.1)

file_in-add_file :
    (ls : List Level) (i j n : ℕ) (file : FileMeta)
    → i < length ls
    → file_in (modify i (Level.add_file file) ls) j n
      ≡ (if i == j && file.file_number == n then some file else file_in ls j n)
unfolding file_in modify
file_in-add_file [] i j n file h = absurd (omega arith)
file_in-add_file (l ∷ ls) zero zero n file h = ground (arith, file_of-add_file file l n)
file_in-add_file (l ∷ ls) zero (suc j) n file h = ground arith
file_in-add_file (l ∷ ls) (suc i) zero n file h = ground arith
file_in-add_file (l ∷ ls) (suc i) (suc j) n file h =
    file_in-add_file ls i j n file (omega arith) ∙ ground arith

file_in-delete_file :
    (ls : List Level) (i j k n : ℕ)
    → i < length ls
    → file_in (modify i (Level.delete_file k) ls) j n
      ≡ (if i == j && k == n then none else file_in ls j n)
unfolding file_in modify
file_in-delete_file [] i j k n h = absurd (omega arith)
file_in-delete_file (l ∷ ls) zero zero k n h = ground (arith, file_of-delete_file k l n)
file_in-delete_file (l ∷ ls) zero (suc j) k n h = ground arith
file_in-delete_file (l ∷ ls) (suc i) zero k n h = ground arith
file_in-delete_file (l ∷ ls) (suc i) (suc j) k n h =
    file_in-delete_file ls i j k n (omega arith) ∙ ground arith

pub add_file-num_of_levels :
    (i : ℕ) (f : FileMeta) (v : Version) → (add_file i f v).num_of_levels ≡ v.num_of_levels
unfolding add_file
add_file-num_of_levels i f v = ground arith

pub delete_file-num_of_levels :
    (i k : ℕ) (v : Version) → (delete_file i k v).num_of_levels ≡ v.num_of_levels
unfolding delete_file
delete_file-num_of_levels i k v = ground arith

module _ (v : Version) (valid : IsVersion v) (level : ℕ) where
  -- After `addFile` a level in range holds the file under its number; all else is as before, and
  -- a level out of range is left alone.
  pub file_at-add_file :
      (file : FileMeta) (j n : ℕ)
      → file_at (add_file level file v) j n ≡ (
          if in_levels level v && (level == j && file.file_number == n)
          then some file
          else file_at v j n)
  unfolding file_at add_file
  file_at-add_file file j n = ground (arith, file_in-add_file v.levels level j n file)

  -- After `deleteFile` a level in range has no file under the number; all else is as before.
  pub file_at-delete_file :
      (k j n : ℕ)
      → file_at (delete_file level k v) j n
        ≡ (if in_levels level v && (level == j && k == n) then none else file_at v j n)
  unfolding file_at delete_file
  file_at-delete_file k j n = ground (arith, file_in-delete_file v.levels level j k n)

  pub add_file-IsVersion : (file : FileMeta) → IsVersion (add_file level file v)
  unfolding add_file
  add_file-IsVersion file = ground (
    arith,
    length-modify level (Level.add_file file) v.levels,
    modify-All level (Level.add_file file) v.levels (Level.add_file-IsKeyed file),
  )

  pub delete_file-IsVersion : (k : ℕ) → IsVersion (delete_file level k v)
  unfolding delete_file
  delete_file-IsVersion k = ground (
    arith,
    length-modify level (Level.delete_file k) v.levels,
    modify-All level (Level.delete_file k) v.levels (Level.delete_file-IsKeyed k),
  )
