-- ===== src/Engine/Outbound/Rows.antt =====
-- The rows of deliveries, counted: what a claim and a deletion change.
use pgmqtt.Prelude.{
  ℕ, ◌+◌, ◌≤◌, ◌≡◌, refl, Bool, true, false, not, ◌&&◌, ◌||◌, Option, none, some, List, [], ◌∷◌,
  arith, Bytes, same, keep, all, count, leb, ◌==◌, if◌then◌else◌, map,
}
use pgmqtt.Engine.Db.{Delivery}
use pgmqtt.Engine.Outbound.{holds_id, is_queued, claim_row, delete_row}

-- A delivery that has been sent and is not yet acknowledged.
abbrev pub in_flight : Bytes → Delivery → Bool
in_flight client d = same d.client client && leb 1 d.state

abbrev pub is_none : Option ℕ → Bool
is_none none = true
is_none (some p) = false

-- A queued delivery has no packet id.
abbrev pub unnumbered : Delivery → Bool
unnumbered d = leb 1 d.state || is_none d.packet_id

-- A row of this id is queued, and for this client.
abbrev pub queued_for : Bytes → ℕ → Delivery → Bool
queued_for client id d = not (d.id == id) || (same d.client client && d.state == 0)

abbrev pub claimed : ℕ → ℕ → Delivery → Delivery
claimed id pid d = if is_queued id d then record d { packet_id = some pid; state = 1 } else d

-- From a fact on every row to one on the list.
count-map :
    (p q : Delivery → Bool) (f : Delivery → Delivery) (r : Delivery → Bool) (xs : List Delivery)
    → ((d : Delivery)
        → r d ≡ true
        → (if p (f d) then 1 else 0) ≡ (if p d then 1 else 0) + (if q d then 1 else 0))
    → all r xs ≡ true
    → count p (map f xs) ≡ count p xs + count q xs
count-map p q f r [] h a = refl
count-map p q f r (x ∷ xs) h a =
    ground (arith, count-map p q f r xs h (ground (arith, a)), h x (ground (arith, a)))

module _ (client : Bytes) (id pid : ℕ) where
  in_flight-claimed :
      (d : Delivery)
      → queued_for client id d ≡ true
      → (if in_flight client (claimed id pid d) then 1 else 0)
        ≡ (if in_flight client d then 1 else 0) + (if is_queued id d then 1 else 0)
  in_flight-claimed d h = ground (arith, h)

  pub count-in_flight-claim_row :
      (rows : List Delivery)
      → all (queued_for client id) rows ≡ true
      → count (in_flight client) (claim_row id pid rows)
        ≡ count (in_flight client) rows + count (is_queued id) rows
  count-in_flight-claim_row rows =
      count-map (in_flight client) (is_queued id) (claimed id pid) (queued_for client id) rows
        in_flight-claimed

  -- The id that is handed out, and the others.
  holds_own :
      (d : Delivery)
      → queued_for client id d && unnumbered d ≡ true
      → (if holds_id client pid (claimed id pid d) then 1 else 0)
        ≡ (if holds_id client pid d then 1 else 0) + (if is_queued id d then 1 else 0)
  holds_own d h = ground (arith, h)

  holds_other :
      (q : ℕ)
      → pid == q ≡ false
      → (d : Delivery) → queued_for client id d && unnumbered d ≡ true
      → (if holds_id client q (claimed id pid d) then 1 else 0)
        ≡ (if holds_id client q d then 1 else 0) + (if false then 1 else 0)
  holds_other q e d h = ground (arith, h, e)

  same_ids :
      (k : ℕ) (d : Delivery)
      → true ≡ true
      → (if (claimed id pid d).id == k then 1 else 0)
        ≡ (if d.id == k then 1 else 0) + (if false then 1 else 0)
  same_ids k d h = ground arith

  count-never : (xs : List Delivery) → count (λ d. false) xs ≡ 0
  count-never [] = refl
  count-never (x ∷ xs) = count-never xs

  all-always : (xs : List Delivery) → all (λ d. true) xs ≡ true
  all-always [] = refl
  all-always (x ∷ xs) = all-always xs

  all-both :
      (p q : Delivery → Bool) (xs : List Delivery)
      → all p xs ≡ true
      → all q xs ≡ true
      → all (λ d. p d && q d) xs ≡ true
  all-both p q [] h k = refl
  all-both p q (x ∷ xs) h k = ground (arith, all-both p q xs, h, k)

  pub count-holds_id-claim_row :
      (rows : List Delivery)
      → all (queued_for client id) rows ≡ true
      → all unnumbered rows ≡ true
      → count (holds_id client pid) (claim_row id pid rows)
        ≡ count (holds_id client pid) rows + count (is_queued id) rows
  count-holds_id-claim_row rows h k =
      count-map (holds_id client pid) (is_queued id) (claimed id pid) _ rows holds_own
        (all-both (queued_for client id) unnumbered rows h k)

  pub count-others-claim_row :
      (q : ℕ) (rows : List Delivery)
      → pid == q ≡ false
      → all (queued_for client id) rows ≡ true
      → all unnumbered rows ≡ true
      → count (holds_id client q) (claim_row id pid rows) ≡ count (holds_id client q) rows
  count-others-claim_row q rows e h k = omega (
    arith,
    count-never rows,
    count-map (holds_id client q) (λ d. false) (claimed id pid) _ rows (holds_other q e)
        (all-both (queued_for client id) unnumbered rows h k),
  )

  pub count-ids-claim_row :
      (k : ℕ) (rows : List Delivery)
      → count (λ d. d.id == k) (claim_row id pid rows) ≡ count (λ d. d.id == k) rows
  count-ids-claim_row k rows = omega (
    arith,
    count-never rows,
    count-map (λ d. d.id == k) (λ d. false) (claimed id pid) (λ d. true) rows (same_ids k)
        (all-always rows),
  )

  pub unnumbered-claim_row :
      (rows : List Delivery)
      → all unnumbered rows ≡ true
      → all unnumbered (claim_row id pid rows) ≡ true
  unnumbered-claim_row [] h = refl
  unnumbered-claim_row (d ∷ ds) h = ground (arith, unnumbered-claim_row ds, h)

  -- Queued rows are none of those in flight.
  pub count-in_flight-delete_row :
      (rows : List Delivery)
      → all (queued_for client id) rows ≡ true
      → count (in_flight client) (delete_row id rows) ≡ count (in_flight client) rows
  count-in_flight-delete_row [] h = refl
  count-in_flight-delete_row (d ∷ ds) h = ground (arith, count-in_flight-delete_row ds, h)

pub all-keep {ℓ} :
    {A : Type ℓ} (p q : A → Bool) (xs : List A) → all p xs ≡ true → all p (keep q xs) ≡ true
all-keep p q [] h = refl
all-keep p q (x ∷ xs) h = ground (arith, all-keep p q xs, h)

pub count-is_queued-le :
    (id : ℕ) (rows : List Delivery) → count (is_queued id) rows ≤ count (λ d. d.id == id) rows
count-is_queued-le id [] = omega arith
count-is_queued-le id (d ∷ ds) = ground (arith, count-is_queued-le id ds)
