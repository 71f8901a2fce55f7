-- ===== src/Web/Hub/Index.antt =====
-- The records of a run in internal/web/hub.go, and the place of each file's progress record.
use torpeek.Prelude.{
  ℕ, zero, suc, ◌≡◌, refl, ◌≢◌, Bool, true, false, ◌&&◌, List, [], ◌∷◌, ◌++◌, ◌==◌, if◌then◌else◌,
  length, set, Option, none, some, arith, ◌∙◌,
}
use torpeek.Web.Hub.{Record, RunHistory}

-- A progress record of a file.
abbrev pub is_progress : ℕ → Record → Bool
is_progress f r = r.progress && r.file == f

-- The records that are not progress, in their order.
abbrev pub events : List Record → List Record
events [] = []
events (r ∷ rs) = if r.progress then events rs else r ∷ events rs

-- The progress records of a file, in their order.
abbrev pub progress_of : ℕ → List Record → List Record
progress_of f [] = []
progress_of f (r ∷ rs) = if is_progress f r then r ∷ progress_of f rs else progress_of f rs

-- The last record of a list, alone; or the other list, where there is none.
abbrev pub last_or : List Record → List Record → List Record
last_or old [] = old
last_or old (r ∷ rs) = last_or (r ∷ []) rs

-- The only progress record of the file stands at a place.
abbrev pub Only : ℕ → ℕ → List Record → Type 0
Only f i [] = ⊥
Only f zero (r ∷ rs) = (is_progress f r ≡ true) × (progress_of f rs ≡ [])
Only f (suc i) (r ∷ rs) = (is_progress f r ≡ false) × Only f i rs

abbrev pub Placed : ℕ → Option ℕ → List Record → Type 0
Placed f none rs = progress_of f rs ≡ []
Placed f (some i) rs = Only f i rs

-- `progress_at` knows the place of every file's progress record.
abbrev pub IsIndexed : RunHistory → Type 0
IsIndexed h = (f : ℕ) → Placed f (h.progress_at f) h.records

pub progress_of-append :
    (f : ℕ) (xs ys : List Record) → progress_of f (xs ++ ys) ≡ progress_of f xs ++ progress_of f ys
progress_of-append f [] ys = refl
progress_of-append f (x ∷ xs) ys = ground (arith, progress_of-append f xs ys)

pub events-append : (xs ys : List Record) → events (xs ++ ys) ≡ events xs ++ events ys
events-append [] ys = refl
events-append (x ∷ xs) ys = ground (arith, events-append xs ys)

-- A new progress record at the end is the only one of its file.
pub Only-append :
    (f : ℕ) (r : Record) (rs : List Record)
    → is_progress f r ≡ true
    → progress_of f rs ≡ []
    → Only f (length rs) (rs ++ (r ∷ []))
Only-append f r [] p n = (p, refl)
Only-append f r (x ∷ rs) p n = (ground arith, Only-append f r rs p (ground arith))

Only-other :
    (f i : ℕ) (r : Record) (rs : List Record)
    → is_progress f r ≡ false
    → Only f i rs
    → Only f i (rs ++ (r ∷ []))
Only-other f i r [] p o = absurd o
Only-other f zero r (x ∷ rs) p o = (o.0, ground (arith, progress_of-append f rs (r ∷ [])))
Only-other f (suc i) r (x ∷ rs) p o = (o.0, Only-other f i r rs p o.1)

-- Writing over the only progress record of a file: it is the new one, and nothing else changes.
pub set-Only :
    (f i : ℕ) (r : Record) (rs : List Record)
    → is_progress f r ≡ true
    → Only f i rs
    → Only f i (set rs i r)
      × (events (set rs i r) ≡ events rs)
      × (progress_of f (set rs i r) ≡ r ∷ [])
set-Only f i r [] p o = absurd o
set-Only f zero r (x ∷ rs) p o = ((p, o.1), ground arith, ground arith)
set-Only f (suc i) r (x ∷ rs) p o =
    let ih = set-Only f i r rs p o.1 in ((o.0, ih.0), ground (arith, ih), ground (arith, ih))

pub set-other :
    (f g i : ℕ) (r : Record) (rs : List Record)
    → is_progress f r ≡ true
    → f ≢ g
    → Only f i rs
    → progress_of g (set rs i r) ≡ progress_of g rs
set-other f g i r [] p n o = absurd o
set-other f g zero r (x ∷ rs) p n o = ground arith
set-other f g (suc i) r (x ∷ rs) p n o = ground (arith, set-other f g i r rs p n o.1)

set-Only-other :
    (f g i j : ℕ) (r : Record) (rs : List Record)
    → is_progress f r ≡ true
    → f ≢ g
    → Only f i rs
    → Only g j rs
    → Only g j (set rs i r)
set-Only-other f g i j r [] p n o q = absurd o
set-Only-other f g zero zero r (x ∷ rs) p n o q = absurd (ground arith)
set-Only-other f g zero (suc j) r (x ∷ rs) p n o q = (ground arith, q.1)
set-Only-other f g (suc i) zero r (x ∷ rs) p n o q = (q.0, set-other f g i r rs p n o.1 ∙ q.1)
set-Only-other f g (suc i) (suc j) r (x ∷ rs) p n o q =
    (q.0, set-Only-other f g i j r rs p n o.1 q.1)

pub set-Placed-other :
    (f g i : ℕ) (at : Option ℕ) (r : Record) (rs : List Record)
    → is_progress f r ≡ true
    → f ≢ g
    → Only f i rs
    → Placed g at rs
    → Placed g at (set rs i r)
set-Placed-other f g i none r rs p n o q = set-other f g i r rs p n o ∙ q
set-Placed-other f g i (some j) r rs p n o q = set-Only-other f g i j r rs p n o q

pub append-Placed-other :
    (g : ℕ) (at : Option ℕ) (r : Record) (rs : List Record)
    → is_progress g r ≡ false
    → Placed g at rs
    → Placed g at (rs ++ (r ∷ []))
append-Placed-other g none r rs p q = ground (arith, progress_of-append g rs (r ∷ []))
append-Placed-other g (some j) r rs p q = Only-other g j r rs p q
