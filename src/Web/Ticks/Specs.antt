-- ===== src/Web/Ticks/Specs.antt =====
-- The lists of files in internal/web/server.go as sets: what `withFiles` adds and `withoutFiles` takes.
use torpeek.Prelude.{
  ◌≤◌, ◌≡◌, refl, ap, true, false, not, ◌&&◌, ◌||◌, List, [], ◌∷◌, ◌++◌, arith, length,
  length-append, Bool-cases, inl, inr,
}
use torpeek.Prelude.Text.{same}
use torpeek.Web.Ticks.{Spec, contains_file, with_files, without_files, is_nil}

pub same_self : (f : Spec) → same f f ≡ true
unfolding same
same_self [] = refl
same_self (c ∷ cs) = ground (arith, same_self cs)

pub same_eq : (f g : Spec) → same f g ≡ true → f ≡ g
unfolding same
same_eq [] [] e = refl
same_eq [] (d ∷ ds) e = cc
same_eq (c ∷ cs) [] e = cc
same_eq (c ∷ cs) (d ∷ ds) e = ground (arith, same_eq cs ds)

pub same_sym : (f g : Spec) → same f g ≡ same g f
unfolding same
same_sym [] [] = refl
same_sym [] (d ∷ ds) = refl
same_sym (c ∷ cs) [] = refl
same_sym (c ∷ cs) (d ∷ ds) = ground (arith, same_sym cs ds)

-- Equal files are in the same lists.
pub contains_file-same :
    (xs : List Spec) (f g : Spec) → same f g ≡ true → contains_file xs f ≡ contains_file xs g
contains_file-same xs f g e = ap (contains_file xs) (same_eq f g e)

pub contains_file-append :
    (xs ys : List Spec) (k : Spec)
    → contains_file (xs ++ ys) k ≡ (contains_file xs k || contains_file ys k)
unfolding contains_file
contains_file-append [] ys k = refl
contains_file-append (x ∷ xs) ys k = ground (arith, contains_file-append xs ys k)

or_nil :
    (xs : List Spec) (k : Spec) → contains_file xs k ≡ (contains_file xs k || contains_file [] k)
unfolding contains_file
or_nil xs k = ground arith

contains_file-cons :
    (w : Spec) (ws : List Spec) (k : Spec)
    → contains_file (w ∷ ws) k ≡ (same w k || contains_file ws k)
unfolding contains_file
contains_file-cons w ws k = refl

pub contains_file-one : (g k : Spec) → contains_file (g ∷ []) k ≡ same g k
unfolding contains_file
contains_file-one g k = ground arith

pub contains_file-with_files :
    (have want : List Spec) (k : Spec)
    → contains_file (with_files have want) k ≡ (contains_file have k || contains_file want k)
unfolding with_files
contains_file-with_files have [] k = or_nil have k
contains_file-with_files have (w ∷ want) k = elim (Bool-cases (contains_file have w)) [
  | inl old ↦
      rw (old, contains_file-with_files have want k)
        (ground (arith, contains_file-cons w want k, contains_file-same have w k))
  | inr new ↦
      rw (new, contains_file-with_files (have ++ (w ∷ [])) want k)
        (ground (
          arith,
          contains_file-cons w want k,
          contains_file-cons w [] k,
          or_nil want k,
          contains_file-append have (w ∷ []) k,
        ))
]

pub contains_file-without_files :
    (want have : List Spec) (k : Spec)
    → contains_file (without_files want have) k
      ≡ (contains_file want k && not (contains_file have k))
unfolding without_files contains_file
contains_file-without_files [] have k = refl
contains_file-without_files (w ∷ want) have k =
    ground (arith, contains_file-without_files want have k, contains_file-same have w k)

-- No file stands twice.
abbrev pub Distinct : List Spec → Type 0
Distinct [] = Unit
Distinct (f ∷ fs) = (contains_file fs f ≡ false) × Distinct fs

Distinct-snoc :
    (f : Spec) (xs : List Spec)
    → contains_file xs f ≡ false
    → Distinct xs
    → Distinct (xs ++ (f ∷ []))
unfolding contains_file
Distinct-snoc f [] n d = (refl, tt)
Distinct-snoc f (x ∷ xs) n d = (
  ground (arith, contains_file-append xs (f ∷ []) x, contains_file, same_sym f x),
  Distinct-snoc f xs (ground arith) d.1,
)

pub Distinct-with_files : (have want : List Spec) → Distinct have → Distinct (with_files have want)
unfolding with_files
Distinct-with_files have [] d = d
Distinct-with_files have (w ∷ want) d = elim (Bool-cases (contains_file have w)) [
  | inl old ↦ rw old (Distinct-with_files have want d)
  | inr new ↦ rw new (Distinct-with_files _ want (Distinct-snoc w have new d))
]

pub Distinct-without_files :
    (want have : List Spec) → Distinct want → Distinct (without_files want have)
unfolding without_files
Distinct-without_files [] have d = d
Distinct-without_files (w ∷ want) have d = elim (Bool-cases (contains_file have w)) [
  | inl old ↦ rw old (Distinct-without_files want have d.1)
  | inr new ↦ rw new (
    ground (arith, contains_file-without_files want have w, d.0),
    Distinct-without_files want have d.1,
  )
]

-- Nothing to take out.
pub without_files-absent :
    (xs : List Spec) (f : Spec) → contains_file xs f ≡ false → without_files xs (f ∷ []) ≡ xs
unfolding without_files contains_file
without_files-absent [] f n = refl
without_files-absent (x ∷ xs) f n = ground (arith, without_files-absent xs f, same_sym f x)

without_files-snoc :
    (xs : List Spec) (f : Spec)
    → contains_file xs f ≡ false
    → without_files (xs ++ (f ∷ [])) (f ∷ []) ≡ xs
unfolding without_files contains_file
without_files-snoc [] f n = rw (same_self f) refl
without_files-snoc (x ∷ xs) f n = ground (arith, without_files-snoc xs f, same_sym f x)

-- A file that was put in is taken out again.
pub without_files-with_files :
    (xs : List Spec) (f : Spec)
    → contains_file xs f ≡ false
    → without_files (with_files xs (f ∷ [])) (f ∷ []) ≡ xs
unfolding with_files
without_files-with_files xs f n = rw n (without_files-snoc xs f n)

-- `withFiles` never shrinks a list, and leaves it alone when it stays as long.
pub with_files-length : (have want : List Spec) → length have ≤ length (with_files have want)
unfolding with_files
with_files-length have [] = omega arith
with_files-length have (w ∷ want) = elim (Bool-cases (contains_file have w)) [
  | inl old ↦ rw old (with_files-length have want)
  | inr new ↦
      rw new (omega (arith, with_files-length (have ++ (w ∷ [])) want, length-append have (w ∷ [])))
]

pub with_files-same :
    (have want : List Spec)
    → length (with_files have want) ≡ length have
    → with_files have want ≡ have
unfolding with_files
with_files-same have [] e = refl
with_files-same have (w ∷ want) e = elim (Bool-cases (contains_file have w)) [
  | inl old ↦ rw old (with_files-same have want (rw old at e))
  | inr new ↦
      let e' : length (with_files (have ++ (w ∷ [])) want) ≡ length have = rw new at e in
      let more : ⊥ =
        omega (arith, with_files-length (have ++ (w ∷ [])) want, length-append have (w ∷ [])) in
      elim more [ ]
]

not_nil : (xs : List Spec) (k : Spec) → contains_file xs k ≡ true → is_nil xs ≡ false
unfolding contains_file
not_nil [] k m = cc
not_nil (x ∷ xs) k m = refl

contains_file-head : (w : Spec) (ws : List Spec) → contains_file (w ∷ ws) w ≡ true
unfolding contains_file
contains_file-head w ws = rw (same_self w) refl

pub with_files-nil :
    (have want : List Spec) → is_nil want ≡ false → is_nil (with_files have want) ≡ false
with_files-nil have [] n = cc
with_files-nil have (w ∷ want) n =
    not_nil (with_files have (w ∷ want)) w
      (ground (arith, contains_file-with_files have (w ∷ want) w, contains_file-head w want))

pub nil_absent : (xs : List Spec) (k : Spec) → is_nil xs ≡ true → contains_file xs k ≡ false
unfolding contains_file
nil_absent [] k n = refl
nil_absent (x ∷ xs) k n = cc
