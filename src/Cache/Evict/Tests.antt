-- ===== src/Cache/Evict/Tests.antt =====
-- internal/cache/evict.go on a tree of three sets, the oldest of them being written.
use torpeek.Prelude.{
  ℕ, ◌≡◌, refl, Bool, true, false, List, [], ◌∷◌, ◌==◌, All, Option, none, some, arith, map,
  if◌then◌else◌,
}
use torpeek.Prelude.Int.{pos}
use torpeek.Cache.Evict.{ResultSet, ParamDir, HashDir, scan, evict, clear, missing}
use torpeek.Cache.Evict.Sort.{Removable}
use torpeek.Cache.Evict.Policy.{Policy, evict_lem, evict-Removable}

abbrev undated : ParamDir
undated = record { name = 9; is_dir = true; size = some 50; run = none }

abbrev dated : ℕ → ℕ → ℕ → ParamDir
dated n b at = record { name = n; is_dir = true; size = some b; run = some at }

abbrev tree : Option (List HashDir)
tree = some (
    record { name = 1; is_dir = true; entries = some (dated 0 30 100 ∷ undated ∷ []) }
    ∷ record { name = 2; is_dir = true; entries = some (dated 0 40 300 ∷ dated 1 20 200 ∷ []) }
    ∷ record { name = 3; is_dir = false; entries = none }
    ∷ [])

-- Only the set of time 300 cannot be removed.
abbrev removable : ℕ × ℕ → Bool
removable (a, b) = if a == 2 then b == 1 else true

abbrev writing : List (ℕ × ℕ)
writing = (1, 0) ∷ []

under_ceiling :
    map (λ (s : ResultSet). s.created_at) (evict removable tree (pos 125) writing).0.removed
    ≡ 200 ∷ []
unfolding evict
under_ceiling = refl

stuck_at : (evict removable tree (pos 80) writing).1 ≡ some (2, 0)
unfolding evict
stuck_at = refl

no_ceiling : (evict removable tree (pos 0) writing).0.freed ≡ 0
unfolding evict
no_ceiling = refl

clear_missing : clear (λ d. missing) removable (4, 4) ≡ (false, none)
unfolding clear
clear_missing = refl

evict_lem_example :
    let a = evict removable tree (pos 80) writing in
    Policy removable 80 writing (scan tree) a.0.removed a.0.freed a.1
evict_lem_example = evict_lem removable tree 80 writing (omega arith)

evict-Removable_example : All (Removable writing) (evict removable tree (pos 80) writing).0.removed
evict-Removable_example = evict-Removable removable tree (pos 80) writing
