-- ===== src/Web/Hub/Follow.antt =====
-- The clients of the hub of internal/web/hub.go: one that is still listed has missed nothing.
use torpeek.Prelude.{
  ℕ, ◌-◌, ◌≡◌, refl, Bool, true, false, List, [], ◌∷◌, ◌++◌, ltb, length, arith, Bool-cases, inl,
  inr, ◌∙◌, ap, In, ◌⊎◌, subst, sym, map,
}
use mathlib.Core.List.{append-nil as append_nil, append_assoc}
use torpeek.Web.Hub.{
  Record, Client, Hub, append_locked, offer, offer_all, broadcast_locked, publish, client_buffer,
}

-- A client of the later list is one of the earlier, with what was sent since, and nothing between.
pub record Follows (bs : List ℕ) (cs : List Client) (c' : Client) : Type 0 where
  pub before : Client
  pub was : In before cs
  pub same : c'.id ≡ before.id
  pub no_gap : c'.sent ≡ before.sent ++ bs
  pub as_received : c'.received ≡ before.received

Follows-more :
    (bs : List ℕ) (c c' : Client) (cs : List Client) → Follows bs cs c' → Follows bs (c ∷ cs) c'
Follows-more bs c c' cs f = record {
  before = f.before;
  was = inr f.was;
  same = f.same;
  no_gap = f.no_gap;
  as_received = f.as_received;
}

has_room : Client → Bool
has_room c = ltb (length c.sent - c.received) client_buffer

abbrev sent_to : Client → ℕ → Client
sent_to c b = record c { sent = c.sent ++ (b ∷ []) }

-- A client whose buffer has room is sent the record and stays; another one goes.
offer_all-room :
    (b : ℕ) (c : Client) (cs : List Client)
    → has_room c ≡ true
    → offer_all b (c ∷ cs) ≡ sent_to c b ∷ offer_all b cs
unfolding offer_all offer has_room
offer_all-room b c cs h = ground arith

offer_all-full :
    (b : ℕ) (c : Client) (cs : List Client)
    → has_room c ≡ false
    → offer_all b (c ∷ cs) ≡ offer_all b cs
unfolding offer_all offer has_room
offer_all-full b c cs h = ground arith

offer_all-Follows :
    (b : ℕ) (cs : List Client) (c' : Client) → In c' (offer_all b cs) → Follows (b ∷ []) cs c'
offer_all-Follows b [] c' i = absurd (subst (In c') nothing i)
  where
    nothing : offer_all b [] ≡ []
    nothing = unfold offer_all in refl
offer_all-Follows b (c ∷ cs) c' i = elim (Bool-cases (has_room c)) [
  | inr full ↦
      Follows-more (b ∷ []) c c' cs
        (offer_all-Follows b cs c' (subst (In c') (offer_all-full b c cs full) i))
  | inl room ↦ elim (first_or_rest room) [
    | inl new ↦ record {
      before = c;
      was = inl refl;
      same = ap (λ (d : Client). d.id) new;
      no_gap = ap (λ (d : Client). d.sent) new;
      as_received = ap (λ (d : Client). d.received) new;
    }
    | inr old ↦ Follows-more (b ∷ []) c c' cs (offer_all-Follows b cs c' old)
  ]
]
  where
    first_or_rest :
        has_room c ≡ true → (c' ≡ record c { sent = c.sent ++ (b ∷ []) }) ⊎ In c' (offer_all b cs)
    first_or_rest room = subst (In c') (offer_all-room b c cs room) i

publish-clients :
    (h : Hub) (run : ℕ) (r : Record)
    → h.closed ≡ false
    → ((publish h run r).clients ≡ offer_all r.bytes h.clients) × ((publish h run r).closed ≡ false)
unfolding publish broadcast_locked append_locked
publish-clients h run r o = ground arith

-- The records of a run published one after the other.
unfoldable pub publish_all : Hub → ℕ → List Record → Hub
publish_all h run [] = h
publish_all h run (r ∷ rs) = publish_all (publish h run r) run rs

Follows-then :
    (b : ℕ) (bs : List ℕ) (cs : List Client) (c' : Client)
    → Follows bs (offer_all b cs) c'
    → Follows (b ∷ bs) cs c'
Follows-then b bs cs c' f =
    let g : Follows (b ∷ []) cs f.before = offer_all-Follows b cs f.before f.was in
    record {
      before = g.before;
      was = g.was;
      same = f.same ∙ g.same;
      no_gap = f.no_gap ∙ ap (λ l. l ++ bs) g.no_gap ∙ append_assoc g.before.sent (b ∷ []) bs;
      as_received = f.as_received ∙ g.as_received;
    }

-- On an open hub, a client that is still listed after any number of records were published is one
-- that was listed before, and it was sent every one of those records, in their order, after what it
-- had been sent: a client that would miss a record is dropped instead.
pub publish_all-Follows :
    (h : Hub) (run : ℕ) (rs : List Record) (c' : Client)
    → h.closed ≡ false
    → In c' (publish_all h run rs).clients
    → Follows (map (λ (r : Record). r.bytes) rs) h.clients c'
unfolding publish_all
publish_all-Follows h run [] c' o i = record {
  before = c';
  was = i;
  same = refl;
  no_gap = sym (append_nil c'.sent);
  as_received = refl;
}
publish_all-Follows h run (r ∷ rs) c' o i =
    let (sent, open_still) = publish-clients h run r o in
    Follows-then r.bytes (map (λ (q : Record). q.bytes) rs) h.clients c' (
      subst (λ cs. Follows (map (λ (q : Record). q.bytes) rs) cs c') sent
        (publish_all-Follows (publish h run r) run rs c' open_still i))
