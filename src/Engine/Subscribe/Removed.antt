-- ===== src/Engine/Subscribe/Removed.antt =====
-- What UNSUBSCRIBE leaves in the table, and what it answers.
use pgmqtt.Prelude.{
  ℕ, ◌≡◌, ◌≢◌, refl, ◌∙◌, ◌↔◌, ◌⊎◌, inl, inr, Bool, true, false, not, ◌&&◌, ◌||◌, none, List, [],
  ◌∷◌, ◌++◌, arith, Bytes, same, same_iff, same_self, keep, any, if◌then◌else◌, Bool-cases, if_both,
}
use pgmqtt.Wire.Topic.{validate_topic_filter}
use pgmqtt.Engine.Db.{Subscription}
use pgmqtt.Engine.Subscribe.{
  unsuback, is_valid, is_key, SubscribeFaults, Subscribed, query_failed, unwritten, done, Table,
  remove_filter, remove_filters, handle_unsubscribe,
}
use pgmqtt.Engine.Subscribe.Stored.{find}
use pgmqtt.Engine.Subscribe.Coded.{IsFilter, is_valid_iff}

-- Whether a filter is among those of a list that are filters by the grammar.
abbrev pub is_named : Bytes → List Bytes → Bool
is_named g = any (λ f. is_valid (validate_topic_filter f) && same f g)

module _ (client f c g : Bytes) where
  find-removed :
      (ss : List Subscription)
      → find c g (keep (λ s. not (is_key client f s)) ss)
        ≡ (if same client c && same f g then none else find c g ss)
  find-removed [] = ground arith
  find-removed (s ∷ ss) = elim (Bool-cases (is_key client f s)) [
    | inl e ↦ ground (arith, e, find-removed ss, own s e)
    | inr e ↦ ground (arith, e, find-removed ss, other s e)
  ]
    where
      own :
          (s : Subscription) → is_key client f s ≡ true → is_key c g s ≡ (same client c && same f g)
      own s e =
          rw
            (
              (same_iff s.client client).0 (ground (arith, e)),
              (same_iff s.filter f).0 (ground (arith, e)),
            )
            refl

      other :
          (s : Subscription)
          → is_key client f s ≡ false
          → same client c && same f g ≡ true
          → is_key c g s ≡ false
      other s e k =
          rw ((same_iff client c).0 (ground (arith, k)), (same_iff f g).0 (ground (arith, k))) at e

  find-remove_filter :
      (ss : List Subscription)
      → find c g (remove_filter client f ss).0
        ≡ (if same client c && is_named g (f ∷ []) then none else find c g ss)
  find-remove_filter ss = ground (arith, find-removed ss)

-- The table after UNSUBSCRIBE: for this client without the filters that were named, and else as before.
abbrev pub Removes : Bytes → List Bytes → List Subscription → List Subscription → Type 0
Removes client fs before after =
    (c g : Bytes)
    → find c g after ≡ (if same client c && is_named g fs then none else find c g before)

remove_filters-Removes :
    (client : Bytes) (fs : List Bytes) (ss : List Subscription)
    → Removes client fs ss (remove_filters client fs ss).0
unfolding remove_filters
remove_filters-Removes client [] ss c g = ground arith
remove_filters-Removes client (f ∷ fs) ss c g =
    remove_filters-Removes client fs (remove_filter client f ss).0 c g
    ∙ ground (arith, find-remove_filter client f c g ss)

-- The codes: 0x8F for a text that is no filter; 0 if the subscription was there and no filter of the packet before
-- was the same, and else 0x11.
abbrev pub Codes : Bytes → List Subscription → List Bytes → List Bytes → List ℕ → Type 0
Codes client before seen [] cs = cs ≡ []
Codes client before seen (f ∷ fs) cs =
    (k : ℕ) × (rest : List ℕ) × (cs ≡ k ∷ rest)
    × ((k ≡ 0x8F) ↔ (¬ IsFilter f))
    × ((k ≡ 0) ↔ (IsFilter f × (find client f before ≢ none) × (is_named f seen ≡ false)))
    × ((k ≡ 0) ⊎ ((k ≡ 0x11) ⊎ (k ≡ 0x8F)))
    × Codes client before (f ∷ seen) fs rest

find-any :
    (client f : Bytes) (ss : List Subscription)
    → (any (is_key client f) ss ≡ true) ↔ (find client f ss ≢ none)
find-any client f [] = (λ h. cc, λ h. absurd (h refl))
find-any client f (s ∷ ss) = elim (Bool-cases (is_key client f s)) [
  | inl e ↦ (λ h. rw e (λ k. cc k), λ h. ground (arith, e))
  | inr e ↦ rw e (find-any client f ss)
]

-- How far the loop has come: the filters of `seen` are gone, and the rest is as before.
abbrev Since : Bytes → List Subscription → List Bytes → List Subscription → Type 0
Since client before seen now =
    (g : Bytes) → find client g now ≡ (if is_named g seen then none else find client g before)

Since-next :
    (client : Bytes) (before : List Subscription) (seen : List Bytes) (f : Bytes)
    (now : List Subscription)
    → Since client before seen now
    → Since client before (f ∷ seen) (remove_filter client f now).0
Since-next client before seen f now h g =
    find-remove_filter client f client g now ∙ ground (arith, h g, same_self client)

remove_filters-Codes :
    (client : Bytes) (before : List Subscription) (seen fs : List Bytes) (now : List Subscription)
    → Since client before seen now
    → Codes client before seen fs (remove_filters client fs now).1
unfolding remove_filters
remove_filters-Codes client before seen [] now h = refl
remove_filters-Codes client before seen (f ∷ fs) now h = (
  (remove_filter client f now).1,
  (remove_filters client fs (remove_filter client f now).0).1,
  refl,
  ground (arith, is_valid_iff f),
  ground (arith, is_valid_iff f, find-any client f now, h f),
  ground arith,
  remove_filters-Codes client before (f ∷ seen) fs (remove_filter client f now).0
      (Since-next client before seen f now h),
)

-- UNSUBSCRIBE, whatever fails. If the begin of the transaction or a statement of it fails, nothing changes and nothing is answered. Else the
-- client has no subscription left to a filter of the packet, and the table is otherwise as it was; and the UNSUBACK, which
-- is all that is written if it can be, has a code for each filter in order: 0x8F for a text that is no filter, 0 for a
-- subscription that was there and was not named before in the packet, and else 0x11.
pub handle_unsubscribe_lem :
    (client : Bytes) (f : SubscribeFaults) (pid : ℕ) (fs : List Bytes) (t : Table)
    → (f.begin ≡ true → handle_unsubscribe client f pid fs t ≡ (t, query_failed))
      × (f.statement ≡ true → handle_unsubscribe client f pid fs t ≡ (t, query_failed))
      × (f.begin ≡ false
          → f.statement ≡ false
          → (codes : List ℕ) × Codes client t.subs [] fs codes
            × Removes client fs t.subs (handle_unsubscribe client f pid fs t).0.subs
            × (f.write ≡ true
                → ((handle_unsubscribe client f pid fs t).0.written ≡ t.written)
                  × ((handle_unsubscribe client f pid fs t).1 ≡ unwritten))
            × (f.write ≡ false
                → ((handle_unsubscribe client f pid fs t).0.written
                    ≡ t.written ++ unsuback pid codes ∷ [])
                  × ((handle_unsubscribe client f pid fs t).1 ≡ done [])))
unfolding handle_unsubscribe
handle_unsubscribe_lem client f pid fs t = (
  λ e. rw e refl,
  λ e.
      if_both (λ x. x ≡ (t, query_failed)) (f.begin || f.statement) (λ _. refl)
        λ k. absurd (ground (arith, k, e)),
  λ a b. (
    (remove_filters client fs t.subs).1,
    remove_filters-Codes client t.subs [] fs t.subs (λ g. refl),
    rw (a, b)
        (if_both (λ (x : Table × Subscribed). Removes client fs t.subs x.0.subs) f.write
          (λ _. remove_filters-Removes client fs t.subs)
          λ _. remove_filters-Removes client fs t.subs),
    λ w. rw (a, b, w) (refl, refl),
    λ w. rw (a, b, w) (refl, refl),
  ),
)
