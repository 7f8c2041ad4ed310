-- ===== src/Engine/Outbound/Alias.antt =====
-- The topic aliases that a connection hands out.
use pgmqtt.Prelude.{
  ℕ, ◌+◌, ◌%◌, ◌≤◌, ◌<◌, ◌≡◌, refl, sym, subst, inl, inr, Bool, true, false, Option, none, some,
  List, [], ◌∷◌, arith, Bytes, same, same_self, All, ◌⊎◌, leb, ◌==◌, Bool-cases, if_both,
}
use pgmqtt.Engine.Outbound.{Aliases, find_alias, new_alias, resolve_alias}

-- The alias is one of those in the table.
abbrev pub Listed : ℕ → List (Bytes × ℕ) → Type 0
Listed n table = All (λ e. (1 ≤ e.1) × (e.1 ≤ n)) table

-- Aliases 1 to `next` are in use, each for one topic.
abbrev Distinct : List (Bytes × ℕ) → Type 0
Distinct [] = Unit
Distinct ((t, a) ∷ rest) = All (λ e. e.1 < a) rest × Distinct rest

pub record IsAliases (a : Aliases) : Type 0 where
  pub small : a.maximum ≤ 65535
  pub next : a.next ≤ a.maximum
  pub listed : Listed a.next a.table
  pub distinct : Distinct a.table

Listed-le : (n m : ℕ) (t : List (Bytes × ℕ)) → n ≤ m → Listed n t → Listed m t
Listed-le n m [] h k = tt
Listed-le n m (e ∷ t) h ((a, b), k) = ((a, omega (arith, b, h)), Listed-le n m t h k)

below_next : (n : ℕ) (t : List (Bytes × ℕ)) → Listed n t → All (λ e. e.1 < n + 1) t
below_next n [] h = tt
below_next n (e ∷ t) ((a, b), h) = (omega (arith, b), below_next n t h)

find-Listed :
    (topic : Bytes) (n a : ℕ) (t : List (Bytes × ℕ))
    → Listed n t
    → find_alias topic t ≡ some a
    → (1 ≤ a) × (a ≤ n)
find-Listed topic n a [] h e = cc
find-Listed topic n a ((k, b) ∷ t) (l, h) e = elim (Bool-cases (same k topic)) [
  | inl s ↦ ground (arith, s, l, e)
  | inr s ↦ find-Listed topic n a t h (ground (arith, s, e))
]

new_alias-IsAliases :
    (topic : Bytes) (a : Aliases) (o : Option ℕ) → IsAliases a → IsAliases (new_alias topic a o).0
new_alias-IsAliases topic a (some n) h = h
new_alias-IsAliases topic a none h =
    if_both (λ (x : Aliases × ℕ × Bool). IsAliases x.0) (leb a.maximum a.next) (λ _. h)
      λ room.
        subst (λ n. IsAliases (record a { next = n; table = (topic, n) ∷ a.table })) (fits room)
          (record {
            small = h.small;
            next = ground (arith, room);
            listed = (
              (omega arith, omega arith),
              Listed-le a.next (a.next + 1) a.table (omega arith) h.listed,
            );
            distinct = (below_next a.next a.table h.listed, h.distinct);
          })
  where
    fits : leb a.maximum a.next ≡ false → a.next + 1 ≡ (a.next + 1) % 65536
    fits room = ground (arith, room, h.small)

-- An answer is of one of three kinds: a new alias, which is entered for the topic; one that was entered for it
-- before, with nothing changed; or none (0), because the client takes none or all are in use.
abbrev pub Answers : Bytes → Aliases → Aliases × ℕ × Bool → Type 0
Answers topic a (a', n, true) =
    (n ≡ a.next + 1)
    × (n ≤ a.maximum)
    × (find_alias topic a.table ≡ none)
    × (find_alias topic a'.table ≡ some n)
Answers topic a (a', n, false) =
    (a' ≡ a) × ((find_alias topic a.table ≡ some n) ⊎ ((n ≡ 0) × (a.maximum ≤ a.next)))

new_alias-Answers :
    (topic : Bytes) (a : Aliases) (o : Option ℕ)
    → find_alias topic a.table ≡ o
    → IsAliases a
    → Answers topic a (new_alias topic a o)
new_alias-Answers topic a (some n) e h = (refl, inl e)
new_alias-Answers topic a none e h =
    if_both (Answers topic a) (leb a.maximum a.next) (λ f. (refl, inr (refl, ground (arith, f))))
      λ room. (sym (fits room), ground (arith, room, h.small), e, rw (same_self topic) refl)
  where
    fits : leb a.maximum a.next ≡ false → a.next + 1 ≡ (a.next + 1) % 65536
    fits room = ground (arith, room, h.small)

-- Each topic gets an alias of its own, within the client's Topic Alias Maximum, and keeps it; a topic gets none
-- only if the maximum is reached; and the table stays one of distinct aliases 1 to `next`.
pub resolve_alias-Answers :
    (topic : Bytes) (a : Aliases)
    → IsAliases a
    → Answers topic a (resolve_alias topic a) × IsAliases (resolve_alias topic a).0
unfolding resolve_alias
resolve_alias-Answers topic a h =
    if_both (λ (x : Aliases × ℕ × Bool). Answers topic a x × IsAliases x.0) (a.maximum == 0)
      (λ z. ((refl, inr (refl, ground (arith, z))), h))
      λ _. (
        new_alias-Answers topic a (find_alias topic a.table) refl h,
        new_alias-IsAliases topic a (find_alias topic a.table) h,
      )
