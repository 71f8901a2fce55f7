-- ===== src/Cache/Evict.antt =====
-- internal/cache/evict.go: the result sets on disk, and what is removed to stay under a ceiling. The
-- names of directories are numbers, and a set's directory is the pair of its two names under the
-- root. What the file system answers is an argument: the tree that is read, and for each directory
-- whether it could be removed.
mod Sort
mod Policy
mod Tests
use torpeek.Prelude.{
  ℕ, ◌+◌, ◌-◌, Bool, true, false, not, ◌&&◌, ◌||◌, List, [], ◌∷◌, ◌++◌, ◌==◌, leb, ltb,
  if◌then◌else◌, Option, none, some,
}
use torpeek.Prelude.Int.{ℤ, pos, pos_part, leb_ℤ}

-- A set is `aged` when its record could be read, and `created_at` means something only then.
pub record ResultSet : Type 0 where
  pub dir : ℕ × ℕ
  pub bytes : ℕ
  pub created_at : ℕ
  pub aged : Bool

-- An entry below a torrent's directory: `size` is what the walk over it gave, and `run` the time in
-- its record, where each could be had.
pub record ParamDir : Type 0 where
  pub name : ℕ
  pub is_dir : Bool
  pub size : Option ℕ
  pub run : Option ℕ

-- An entry below the root, with its own entries where it could be read.
pub record HashDir : Type 0 where
  pub name : ℕ
  pub is_dir : Bool
  pub entries : Option (List ParamDir)

abbrev pub set_of : ℕ → ParamDir → ℕ → ResultSet
set_of hash p size = elim p.run [
  | some at ↦ record { dir = (hash, p.name); bytes = size; created_at = at; aged = true }
  | none ↦ record { dir = (hash, p.name); bytes = size; created_at = 0; aged = false }
]

unfoldable pub scan_params : ℕ → List ParamDir → List ResultSet
scan_params hash [] = []
scan_params hash (p ∷ ps) =
    let rest = scan_params hash ps in
    if p.is_dir then (elim p.size [ some size ↦ set_of hash p size ∷ rest | none ↦ rest ]) else rest

unfoldable pub scan_hashes : List HashDir → List ResultSet
unfolding scan_params
scan_hashes [] = []
scan_hashes (d ∷ ds) =
    let rest = scan_hashes ds in
    if d.is_dir
    then (elim d.entries [ some ps ↦ scan_params d.name ps ++ rest | none ↦ rest ])
    else rest

-- A root that cannot be read holds nothing.
unfoldable pub scan : Option (List HashDir) → List ResultSet
unfolding scan_hashes
scan none = []
scan (some ds) = scan_hashes ds

pub record EvictResult : Type 0 where
  pub removed : List ResultSet
  pub freed : ℕ

abbrev pub nothing_evicted : EvictResult
nothing_evicted = record { removed = []; freed = 0 }

-- The result so far, and the directory that could not be removed, if one stopped it.
abbrev pub Answer : Type 0
Answer = EvictResult × Option (ℕ × ℕ)

abbrev pub same_dir : ℕ × ℕ → ℕ × ℕ → Bool
same_dir (a, b) (c, d) = a == c && b == d

unfoldable pub is_protected : List (ℕ × ℕ) → ℕ × ℕ → Bool
is_protected [] d = false
is_protected (l ∷ live) d = same_dir l d || is_protected live d

unfoldable pub total_bytes : List ResultSet → ℕ
total_bytes [] = 0
total_bytes (s ∷ ss) = s.bytes + total_bytes ss

unfoldable pub candidates : List (ℕ × ℕ) → List ResultSet → List ResultSet
unfolding is_protected
candidates live [] = []
candidates live (s ∷ ss) =
    let rest = candidates live ss in
    if not s.aged || is_protected live s.dir then rest else s ∷ rest

-- What `sort.Slice` makes of the candidates; sets of one age stay in their order.
unfoldable pub insert_aged : ResultSet → List ResultSet → List ResultSet
insert_aged s [] = s ∷ []
insert_aged s (t ∷ ts) =
    let rest = insert_aged s ts in if ltb t.created_at s.created_at then t ∷ rest else s ∷ t ∷ ts

unfoldable pub oldest_first : List ResultSet → List ResultSet
unfolding insert_aged
oldest_first [] = []
oldest_first (s ∷ ss) = insert_aged s (oldest_first ss)

abbrev pub note_removed : EvictResult → ResultSet → EvictResult
note_removed r s = record { removed = r.removed ++ (s ∷ []); freed = r.freed + s.bytes }

unfoldable pub evict_loop : (ℕ × ℕ → Bool) → ℕ → ℕ → EvictResult → List ResultSet → Answer
evict_loop remove ceiling total r [] = (r, none)
evict_loop remove ceiling total r (s ∷ ss) = elim (leb total ceiling) [
  | true ↦ (r, none)
  | false ↦ elim (remove s.dir) [
    | false ↦ (r, some s.dir)
    | true ↦ evict_loop remove ceiling (total - s.bytes) (note_removed r s) ss
  ]
]

unfoldable pub evict : (ℕ × ℕ → Bool) → Option (List HashDir) → ℤ → List (ℕ × ℕ) → Answer
unfolding evict_loop scan total_bytes candidates oldest_first
evict remove root ceiling live =
    let sets = scan root in
    if leb_ℤ ceiling (pos 0)
    then (nothing_evicted, none)
    else evict_loop remove (pos_part ceiling) (total_bytes sets) nothing_evicted
        (oldest_first (candidates live sets))

-- What a look at the directory answered, before it is removed.
pub data Stat : Type 0 where
  present missing unreadable : Stat

pub data ClearError : Type 0 where
  not_read not_removed : ClearError

-- Whether the set was removed, or why that is not known.
unfoldable pub clear : (ℕ × ℕ → Stat) → (ℕ × ℕ → Bool) → ℕ × ℕ → Bool × Option ClearError
clear stat remove dir = elim (stat dir) [
  | missing ↦ (false, none)
  | unreadable ↦ (false, some not_read)
  | present ↦ if remove dir then (true, none) else (false, some not_removed)
]

unfoldable pub clear_loop : (ℕ × ℕ → Bool) → EvictResult → List ResultSet → Answer
clear_loop remove r [] = (r, none)
clear_loop remove r (s ∷ ss) = elim (remove s.dir) [
  | false ↦ (r, some s.dir)
  | true ↦ clear_loop remove (note_removed r s) ss
]

unfoldable pub clear_all : (ℕ × ℕ → Bool) → Option (List HashDir) → Answer
unfolding clear_loop scan
clear_all remove root = clear_loop remove nothing_evicted (scan root)
