-- ===== src/Swarm/Torrent/ClaimLog.antt =====
-- The claim log of internal/swarm/torrent.go and fetch.go: what was ordered of a file between
-- `StartClaimLog` and `EndClaimLog`. A file is named by its index in the torrent.
use torpeek.Prelude.{
  ℕ, ◌+◌, ◌-◌, ◌*◌, ◌<◌, ◌≡◌, refl, Bool, true, false, ◌&&◌, ◌||◌, List, [], ◌∷◌, ◌++◌, ◌==◌, leb,
  ltb, if◌then◌else◌, get_elem?, Option, none, some, arith, Bool-cases, Option-cases, inl, inr, ◌∙◌,
  ap, subst,
}
use torpeek.Prelude.Int.{pos}
use torpeek.Swarm.Torrent.{FileInfo, PieceRange, Torrent, file_bytes_of, coalesce_spans}
use torpeek.Swarm.Torrent.Spans.{covered, Separated, coalesce_spans_lem}

abbrev put_log : (ℕ → Option (List (ℕ × ℕ))) → ℕ → Option (List (ℕ × ℕ)) → ℕ → Option (List (ℕ × ℕ))
put_log m i v j = if i == j then v else m j

-- A log that is open already starts again without spans.
unfoldable pub start_claim_log : Torrent → ℕ → Torrent
start_claim_log t file = record t { claim_log = put_log t.claim_log file (some []) }

unfoldable pub log_claim : Torrent → ℕ → PieceRange → Torrent
log_claim t file pieces = elim (t.claim_log file) [
  | none ↦ t
  | some spans ↦ elim (file_bytes_of t (pos file) pieces) [
    | none ↦ t
    | some span ↦ record t { claim_log = put_log t.claim_log file (some (spans ++ (span ∷ []))) }
  ]
]

-- The log is closed, and its answer is the second part: nothing where no log was open.
unfoldable pub end_claim_log : Torrent → ℕ → Torrent × List (ℕ × ℕ)
end_claim_log t file = (
  record t { claim_log = put_log t.claim_log file none },
  elim (t.claim_log file) [ none ↦ [] | some spans ↦ coalesce_spans spans ],
)

-- The claims of a run, each for a file, one after another.
unfoldable pub log_claims : Torrent → List (ℕ × PieceRange) → Torrent
log_claims t [] = t
log_claims t ((file, pieces) ∷ cs) = log_claims (log_claim t file pieces) cs

-- The byte `x` of the file lies in a piece of the range, for pieces of length `p`.
abbrev in_pieces : ℕ → FileInfo → PieceRange → ℕ → Bool
in_pieces p f r x =
    ltb x f.length && leb (r.begin * p) (f.offset + x) && ltb (f.offset + x) (r.end * p)

-- Some claim for the file `i` ordered its byte `x`.
abbrev pub ordered : ℕ → ℕ → FileInfo → List (ℕ × PieceRange) → ℕ → Bool
ordered p i f [] x = false
ordered p i f ((j, r) ∷ cs) x = (j == i && in_pieces p f r x) || ordered p i f cs x

covered-snoc :
    (x a b : ℕ) (ss : List (ℕ × ℕ))
    → covered x (ss ++ ((a, b) ∷ [])) ≡ (covered x ss || (leb a x && ltb x b))
covered-snoc x a b [] = ground arith
covered-snoc x a b ((c, d) ∷ ss) = ground (arith, covered-snoc x a b ss)

abbrev clip_begin : Torrent → FileInfo → PieceRange → ℕ
clip_begin t f r = r.begin * t.piece_length - f.offset

abbrev clip_end : Torrent → FileInfo → PieceRange → ℕ
clip_end t f r =
    let stop = r.end * t.piece_length - f.offset in if ltb f.length stop then f.length else stop

-- A claim that leaves no bytes of the file has no byte of it in its pieces.
abbrev is_outside : Torrent → FileInfo → PieceRange → Bool
is_outside t f r = f.length == 0 || leb (clip_end t f r) (clip_begin t f r)

file_bytes_of_lem :
    (t : Torrent) (i : ℕ) (f : FileInfo) (r : PieceRange)
    → get_elem? t.files i ≡ some f
    → 0 < t.piece_length
    → file_bytes_of t (pos i) r
      ≡ (if is_outside t f r then none else some (clip_begin t f r, clip_end t f r))
unfolding file_bytes_of
file_bytes_of_lem t i f r e h = rw (e, file_bytes_of) (ground arith)

outside_lem :
    (t : Torrent) (f : FileInfo) (r : PieceRange) (x : ℕ)
    → is_outside t f r ≡ true
    → in_pieces t.piece_length f r x ≡ false
outside_lem t f r x o = ground arith

inside_lem :
    (t : Torrent) (f : FileInfo) (r : PieceRange) (x : ℕ)
    → is_outside t f r ≡ false
    → (leb (clip_begin t f r) x && ltb x (clip_end t f r)) ≡ in_pieces t.piece_length f r x
inside_lem t f r x o = ground arith

-- The log of the file `i` is open and holds the spans.
abbrev Logged : Torrent → ℕ → ℕ → FileInfo → List (ℕ × ℕ) → Type 0
Logged t p i f spans =
    (get_elem? t.files i ≡ some f) × (t.piece_length ≡ p) × (t.claim_log i ≡ some spans)

abbrev Step : Torrent → ℕ → ℕ → FileInfo → List (ℕ × ℕ) → (ℕ → Bool) → Type 0
Step u p i f spans more =
    (spans' : List (ℕ × ℕ)) × Logged u p i f spans'
    × ((x : ℕ) → covered x spans' ≡ (covered x spans || more x))

log_claim-closed :
    (t : Torrent) (j : ℕ) (r : PieceRange) → t.claim_log j ≡ none → log_claim t j r ≡ t
unfolding log_claim
log_claim-closed t j r e = rw (e, log_claim) refl

log_claim-outside :
    (t : Torrent) (j : ℕ) (r : PieceRange) (ss : List (ℕ × ℕ))
    → t.claim_log j ≡ some ss
    → file_bytes_of t (pos j) r ≡ none
    → log_claim t j r ≡ t
unfolding log_claim
log_claim-outside t j r ss e k = rw (e, log_claim) (rw k refl)

log_claim-inside :
    (t : Torrent) (j : ℕ) (r : PieceRange) (ss : List (ℕ × ℕ)) (s : ℕ × ℕ)
    → t.claim_log j ≡ some ss
    → file_bytes_of t (pos j) r ≡ some s
    → log_claim t j r ≡ record t { claim_log = put_log t.claim_log j (some (ss ++ (s ∷ []))) }
unfolding log_claim
log_claim-inside t j r ss s e k = rw (e, log_claim) (rw k refl)

-- A claim for the file itself.
log_claim-own :
    (t : Torrent) (p i : ℕ) (f : FileInfo) (r : PieceRange) (spans : List (ℕ × ℕ))
    → 0 < p
    → Logged t p i f spans
    → Step (log_claim t i r) p i f spans (in_pieces p f r)
log_claim-own t p i f r spans h l =
    let k : 0 < t.piece_length = ground arith in
    elim (Bool-cases (is_outside t f r)) [
      | inl e ↦
          rw (log_claim-outside t i r spans l.2 (file_bytes_of_lem t i f r l.0 k ∙ rw e refl))
            (spans, l, λ x. ground (arith, outside_lem t f r x e))
      | inr e ↦
          rw
            (log_claim-inside t i r spans (clip_begin t f r, clip_end t f r) l.2
              (file_bytes_of_lem t i f r l.0 k ∙ rw e refl))
            (
              spans ++ ((clip_begin t f r, clip_end t f r) ∷ []),
              (l.0, l.1, ground arith),
              λ x.
                  covered-snoc x (clip_begin t f r) (clip_end t f r) spans
                  ∙ ap (λ b. covered x spans || b)
                      (inside_lem t f r x e ∙ ap (λ q. in_pieces q f r x) l.1),
            )
    ]

-- A claim for another file.
log_claim-other :
    (t : Torrent) (p i j : ℕ) (f : FileInfo) (r : PieceRange) (spans : List (ℕ × ℕ))
    → (j == i) ≡ false
    → Logged t p i f spans
    → Logged (log_claim t j r) p i f spans
log_claim-other t p i j f r spans d l = elim (Option-cases (t.claim_log j)) [
  | inl e ↦ rw (log_claim-closed t j r e) l
  | inr (ss, e) ↦ elim (Option-cases (file_bytes_of t (pos j) r)) [
    | inl k ↦ rw (log_claim-outside t j r ss e k) l
    | inr (s, k) ↦ rw (log_claim-inside t j r ss s e k) (l.0, l.1, rw d l.2)
  ]
]

equal_lem : (j i : ℕ) → (j == i) ≡ true → i ≡ j
equal_lem j i e = ground arith

or_step : {b c : Bool} (a m n : Bool) → b ≡ (a || m) → c ≡ (b || n) → c ≡ (a || (m || n))
or_step {b} {c} a m n h k = ground arith

log_claims_lem :
    (p i : ℕ) (f : FileInfo) (cs : List (ℕ × PieceRange)) (t : Torrent) (spans : List (ℕ × ℕ))
    → 0 < p
    → Logged t p i f spans
    → Step (log_claims t cs) p i f spans (ordered p i f cs)
unfolding log_claims
log_claims_lem p i f [] t spans h l = (spans, l, λ x. ground arith)
log_claims_lem p i f ((j, r) ∷ cs) t spans h l = elim (Bool-cases (j == i)) [
  | inl e ↦
      let (own, l', c) =
        subst (λ k. Step (log_claim t k r) p i f spans (in_pieces p f r)) (equal_lem j i e)
          (log_claim-own t p i f r spans h l) in
      let (spans', l'', c') = log_claims_lem p i f cs (log_claim t j r) own h l' in
      (
        spans',
        l'',
        λ x.
            or_step (covered x spans) (in_pieces p f r x) (ordered p i f cs x) (c x) (c' x)
            ∙ (rw e refl),
      )
  | inr e ↦
      let (spans', l', c) =
        log_claims_lem p i f cs (log_claim t j r) spans h (log_claim-other t p i j f r spans e l) in
      (spans', l', λ x. c x ∙ (rw e refl))
]

end_claim_log-open :
    (t : Torrent) (i : ℕ) (ss : List (ℕ × ℕ))
    → t.claim_log i ≡ some ss
    → (end_claim_log t i).1 ≡ coalesce_spans ss
unfolding end_claim_log
end_claim_log-open t i ss e = rw (e, end_claim_log) refl

-- In a torrent with a piece length, for a file of it: after `StartClaimLog`, any claims, and
-- `EndClaimLog`, the answer covers exactly the bytes of the file that lie in the pieces claimed for
-- it, in spans that are separated. Claims for other files leave it alone.
pub claim_log_lem :
    (t : Torrent) (i : ℕ) (f : FileInfo) (cs : List (ℕ × PieceRange))
    → get_elem? t.files i ≡ some f
    → 0 < t.piece_length
    → let answer = (end_claim_log (log_claims (start_claim_log t i) cs) i).1 in
      ((x : ℕ) → covered x answer ≡ ordered t.piece_length i f cs x) × Separated answer
unfolding start_claim_log
claim_log_lem t i f cs e h =
    let (spans, l, c) =
      log_claims_lem t.piece_length i f cs (start_claim_log t i) [] h (e, refl, ground arith) in
    let (same, gaps) = coalesce_spans_lem spans in
    rw (end_claim_log-open (log_claims (start_claim_log t i) cs) i spans l.2)
      (λ x. same x ∙ c x, gaps)
