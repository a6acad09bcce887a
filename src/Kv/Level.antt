-- ===== src/Kv/Level.antt =====
-- kv/version/file_meta.go and kv/version/level.go: the files of one level, by file number.
use lindb.Base.{
  Bool-cases, ℕ, ◌≡◌, refl, List, [], ◌∷◌, Option, none, some, arith, Map, values, lookup, insert,
  delete, length, if◌then◌else◌, ◌==◌, In, inl, inr, ℕ-Key, lookup-insert, lookup-delete,
}

pub record FileMeta : Type 0 where
  pub file_number : ℕ
  pub min_key : ℕ
  pub max_key : ℕ
  pub file_size : ℕ

pub record Level : Type 0 where
  pub files : Map ℕ FileMeta

abbrev pub new_level : Level
new_level = record { files = [] }

unfoldable pub add_file : FileMeta → Level → Level
add_file file l = record { files = insert file.file_number file l.files }

unfoldable pub add_files : List FileMeta → Level → Level
add_files [] l = l
add_files (file ∷ files) l = add_files files (add_file file l)

unfoldable pub delete_file : ℕ → Level → Level
delete_file file_number l = record { files = delete file_number l.files }

unfoldable pub get_files : Level → List FileMeta
get_files l = values l.files

unfoldable pub number_of_files : Level → ℕ
number_of_files l = length l.files

-- The file that a level holds under a number.
abbrev pub file_of : ℕ → Level → Option FileMeta
file_of n l = lookup n l.files

pub file_of-add_file :
    (file : FileMeta) (l : Level) (n : ℕ)
    → file_of n (add_file file l) ≡ (if file.file_number == n then some file else file_of n l)
unfolding add_file
file_of-add_file file l n = lookup-insert file.file_number n file l.files

pub file_of-delete_file :
    (k : ℕ) (l : Level) (n : ℕ)
    → file_of n (delete_file k l) ≡ (if k == n then none else file_of n l)
unfolding delete_file
file_of-delete_file k l n = lookup-delete k n l.files

-- Each file stands under its own number, and no number twice.
abbrev pub Keyed : Map ℕ FileMeta → Type 0
Keyed [] = Unit {0}
Keyed ((k, f) ∷ m) = (k ≡ f.file_number) × (lookup k m ≡ none) × Keyed m

abbrev pub IsKeyed : Level → Type 0
IsKeyed l = Keyed l.files

delete-Keyed : (k : ℕ) (m : Map ℕ FileMeta) → Keyed m → Keyed (delete k m)
unfolding delete
delete-Keyed k [] h = tt
delete-Keyed k ((j, f) ∷ m) (own, once, rest) =
    ground (arith, delete-Keyed k m rest, lookup-delete k j m)

pub insert-Keyed :
    (file : FileMeta) (m : Map ℕ FileMeta) → Keyed m → Keyed (insert file.file_number file m)
unfolding insert
insert-Keyed file m h = (
  refl,
  ground (arith, lookup-delete file.file_number file.file_number m),
  delete-Keyed file.file_number m h,
)

pub add_file-IsKeyed : (file : FileMeta) (l : Level) → IsKeyed l → IsKeyed (add_file file l)
unfolding add_file
add_file-IsKeyed file l h = insert-Keyed file l.files h

pub delete_file-IsKeyed : (k : ℕ) (l : Level) → IsKeyed l → IsKeyed (delete_file k l)
unfolding delete_file
delete_file-IsKeyed k l h = delete-Keyed k l.files h

pub In-lookup :
    (f : FileMeta) (m : Map ℕ FileMeta)
    → Keyed m
    → In f (values m)
    → lookup f.file_number m ≡ some f
unfolding lookup
In-lookup f [] h m = absurd m
In-lookup f ((k, g) ∷ m) (own, once, rest) (inl e) = ground arith
In-lookup f ((k, g) ∷ m) (own, once, rest) (inr i) = ground (arith, In-lookup f m rest i)

pub lookup-In :
    (n : ℕ) (f : FileMeta) (m : Map ℕ FileMeta)
    → Keyed m
    → lookup n m ≡ some f
    → In f (values m) × (n ≡ f.file_number)
unfolding lookup
lookup-In n f [] h e = cc
lookup-In n f ((k, g) ∷ m) (own, once, rest) e = elim (Bool-cases (k == n)) [
  | inl here ↦ (inl (ground arith), ground arith)
  | inr there ↦ let (i, eq) = lookup-In n f m rest (rw there at e) in (inr i, eq)
]

-- `get_files` lists the files that the level holds, each under its number.
pub get_files-file_of :
    (f : FileMeta) (l : Level) → IsKeyed l → In f (get_files l) → file_of f.file_number l ≡ some f
unfolding get_files
get_files-file_of f l h i = In-lookup f l.files h i

pub file_of-get_files :
    (n : ℕ) (f : FileMeta) (l : Level)
    → IsKeyed l
    → file_of n l ≡ some f
    → In f (get_files l) × (n ≡ f.file_number)
unfolding get_files
file_of-get_files n f l h e = lookup-In n f l.files h e
