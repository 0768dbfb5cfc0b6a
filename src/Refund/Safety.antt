-- ===== src/Refund/Safety.antt =====
-- No claim is paid twice, whatever requests run at once (internal/httpapi/admin_claims.go,
-- internal/store/claim.go).
use claw_hub.Refund.Decisions.{prepare-IsPrepared}
use claw_hub.ClaimStore.Keys.{create_claim_writes}
use claw_hub.ClaimStore.Trail.{payments-Trail, other, born, payments, viewed, Trail, IsOpening}
use claw_hub.Claim.Lifecycle.{◌⟶◌}
use claw_hub.Claim.Status.{paid, status_eq, view_contact, Action}
use claw_hub.ClaimStore.Table.{
  duplicate, inserted_row, create_event, insert_claim, CreateClaimInput, not_found, append_event,
  is_affected, update_row, Db, StoreError, Row, apply_transition,
}
use claw_hub.Claim.Machine.{Event, Claim}
use claw_hub.Refund.Rows.{
  only_affected, update-HasUniqueIds, updated-IsSound, IsPaidRight, updated_id, updated_terms,
  SameTerms, IsPrepared, IsSound, HasUniqueIds,
}
use claw_hub.Refund.Handlers.{commit, Access}
use claw_hub.Refund.World.{Step, IsFresh, Reach, empty_world, World}
use claw_hub.Prelude.{
  ◌≢◌, if◌then◌else◌, All-map, arith, ok-injective, true, ◌==◌, [], ◌∙◌, inr, count_if, err,
  Bool-cases, sym, ok, subst, ◌≡◌, map, inl, ◌∷◌, Result, List, ℕ, In, All, refl,
}

pub record Inv (w : World) : Type 0 where
  pub unique : HasUniqueIds w.db.claims
  pub sound : All (IsSound w.db.events) w.db.claims
  pub prepared : All (λ d. IsPrepared w.db.claims d.1) w.decided

empty-Inv : Inv empty_world
empty-Inv = record { unique = tt; sound = tt; prepared = tt }

-- What holds of each decision that is waiting.
All-In {ℓ} : {A : Type 0} (P : A → Type ℓ) (xs : List A) {x : A} → All P xs → In x xs → P x
All-In P [] h i = absurd i
All-In P (y ∷ xs) h (inl e) = subst P (sym e) h.0
All-In P (y ∷ xs) h (inr i) = All-In P xs h.1 i

module _ (store : ℕ) (p : Claim × Event) where
  update-terms :
      (q : Claim × Event) (rows : List Row)
      → All (λ r. r.claim.id ≡ q.0.id → SameTerms r.claim q.0) rows
      → All (λ r. r.claim.id ≡ q.0.id → SameTerms r.claim q.0) (map (update_row store p.0 p.1) rows)
  update-terms q [] h = tt
  update-terms q (r ∷ rows) h = (
    λ i.
        let t = updated_terms store p.0 p.1 r in
        let u = h.0 (sym (updated_id store p.0 p.1 r) ∙ i) in
        record { amount = t.amount ∙ u.amount; method = t.method ∙ u.method },
    update-terms q rows h.1,
  )

  update-IsPrepared :
      (rows : List Row) (q : Claim × Event)
      → IsPrepared rows q
      → IsPrepared (map (update_row store p.0 p.1) rows) q
  update-IsPrepared rows q h = record {
    about = h.about;
    moved_on = h.moved_on;
    edge = h.edge;
    at_end = h.at_end;
    paid_right = h.paid_right;
    terms = update-terms q rows h.terms;
  }

  update-IsSound :
      (log : List Event) (rows : List Row)
      → p.1.claim_id ≡ p.0.id
      → p.1.action ≡ Action.transition
      → p.1.from ⟶ p.1.to
      → p.0.status ≡ p.1.to
      → IsPaidRight p.0
      → All (λ r. r.claim.id ≡ p.0.id → SameTerms r.claim p.0) rows
      → All (λ r. r.claim.id ≡ p.0.id → is_affected store p.0 p.1 r ≡ true) rows
      → All (IsSound log) rows
      → All (IsSound (p.1 ∷ log)) (map (update_row store p.0 p.1) rows)
  update-IsSound log [] b m e n r t h s = tt
  update-IsSound log (x ∷ rows) b m e n r t h s = (
    updated-IsSound store p.0 p.1 log x b m e n r t.0 h.0 s.0,
    update-IsSound log rows b m e n r t.1 h.1 s.1,
  )

  -- The write of a decision keeps the invariant, whether or not it finds its row.
  applied-Inv :
      (w : World) {db : Db}
      → Inv w
      → IsPrepared w.db.claims p
      → apply_transition store p.0 p.1 w.db ≡ ok db
      → Inv (record w { db = db })
  unfolding apply_transition
  applied-Inv w v q h = elim (Bool-cases (count_if (is_affected store p.0 p.1) w.db.claims == 0)) [
    | inl stale_row ↦ absurd (cc (rw stale_row at h))
    | inr hit ↦
        let e = ok-injective (rw hit at h) in
        rw (← e) (record {
          unique = update-HasUniqueIds store p.0 p.1 w.db.claims v.unique;
          sound =
              update-IsSound w.db.events w.db.claims q.about q.moved_on q.edge q.at_end q.paid_right
                q.terms (only_affected store p.0 p.1 w.db.claims v.unique (ground arith)) v.sound;
          prepared = All-map _ _ (λ d. update-IsPrepared w.db.claims d.1) w.decided v.prepared;
        })
  ]

commit_ok :
    (a : Access) (p : Claim × Event) (db : Db) {db' : Db}
    → apply_transition a.store_id p.0 p.1 db ≡ ok db'
    → (commit a p db).1 ≡ db'
unfolding commit
commit_ok a p db e = rw (e, commit)

commit_err :
    (a : Access) (p : Claim × Event) (db : Db) (x : StoreError)
    → apply_transition a.store_id p.0 p.1 db ≡ err x
    → (commit a p db).1 ≡ db
unfolding commit
commit_err a p db not_found e = rw (e, commit)
commit_err a p db duplicate e = rw (e, commit)
commit_err a p db StoreError.failed e = rw (e, commit)

commit-Inv :
    (w : World) (a : Access) (p : Claim × Event)
    → Inv w
    → In (a, p) w.decided
    → Inv (record w { db = (commit a p w.db).1 })
commit-Inv w a p v d = written (apply_transition a.store_id p.0 p.1 w.db) refl
  where
    written :
        (r : Result StoreError Db)
        → apply_transition a.store_id p.0 p.1 w.db ≡ r
        → Inv (record w { db = (commit a p w.db).1 })
    written (ok db) e = rw (commit_ok a p w.db e) (
        applied-Inv a.store_id p w v
          (All-In (λ d. IsPrepared w.db.claims d.1) w.decided v.prepared d) e)
    written (err x) e = rw (commit_err a p w.db x e) v

IsOpening-unpaid : (c : Claim) → IsOpening c.status → IsPaidRight c
IsOpening-unpaid c o e = absurd (subst IsOpening e o)

-- A new claim keeps the invariant.
module _ (w : World) (in' : CreateClaimInput) (id now : ℕ) (f : IsFresh id w) where
  insert-IsSound :
      (rows : List Row)
      → All (λ r. r.claim.id ≢ id) rows
      → All (IsSound w.db.events) rows
      → All (IsSound (insert_claim in' id now w.db).events) rows
  unfolding insert_claim create_event
  insert-IsSound [] n s = tt
  insert-IsSound (r ∷ rows) n s = (
    record { trail = other (λ e. n.0 (sym e)) s.0.trail; paid_right = s.0.paid_right },
    insert-IsSound rows n.1 s.1,
  )

  insert-IsPrepared :
      (d : List (Access × (Claim × Event)))
      → All (λ q. q.1.0.id ≢ id) d
      → All (λ q. IsPrepared w.db.claims q.1) d
      → All (λ q. IsPrepared (insert_claim in' id now w.db).claims q.1) d
  unfolding insert_claim
  insert-IsPrepared [] n h = tt
  insert-IsPrepared (q ∷ d) n h = (
    record {
      about = h.0.about;
      moved_on = h.0.moved_on;
      edge = h.0.edge;
      at_end = h.0.at_end;
      paid_right = h.0.paid_right;
      terms = (λ i. absurd (n.0 (sym i)), h.0.terms);
    },
    insert-IsPrepared d n.1 h.1,
  )

  insert-Inv :
      IsOpening in'.row.claim.status → Inv w → Inv (record w { db = insert_claim in' id now w.db })
  unfolding insert_claim create_event
  insert-Inv o v = record {
    unique = (f.no_row, v.unique);
    sound = (
      record {
        trail = born refl refl refl o f.no_event;
        paid_right = IsOpening-unpaid (inserted_row in' id now).claim o;
      },
      insert-IsSound w.db.claims f.no_row v.sound,
    );
    prepared = insert-IsPrepared w.decided f.no_decision v.prepared;
  }

view-IsSound :
    (ev : Event) (log : List Event) (rows : List Row)
    → ev.action ≡ view_contact
    → All (IsSound log) rows
    → All (IsSound (ev ∷ log)) rows
view-IsSound ev log rows a s =
    All-map _ _ (λ r h. record { trail = viewed a h.trail; paid_right = h.paid_right }) rows s

-- Every step of the world keeps the invariant.
Step-Inv : {w v : World} → Step w v → Inv w → Inv v
unfolding append_event
Step-Inv (Step.submit {w = w} {db = db} in' id now res f o h) v =
    elim (create_claim_writes in' id now w.db db res h) [
      | inl same ↦ rw (← same) v
      | inr new ↦ rw (← new) (insert-Inv w in' id now f o v)
    ]
Step-Inv (Step.decide {w = w} cmd a id body now h) v = record {
  unique = v.unique;
  sound = v.sound;
  prepared = (prepare-IsPrepared cmd a id body now w.db v.unique h, v.prepared);
}
Step-Inv (Step.write {w = w} a p d) v = commit-Inv w a p v d
Step-Inv (Step.view {w = w} ev a) v = record {
  unique = v.unique;
  sound = view-IsSound ev w.db.events w.db.claims a v.sound;
  prepared = v.prepared;
}

Reach-Inv : {w : World} → Reach w → Inv w
Reach-Inv Reach.start = empty-Inv
Reach-Inv (Reach.next r s) = Step-Inv s (Reach-Inv r)

-- However the requests of customers, owners and link holders run together, the audit log tells of
-- each claim a path through the diagram of statuses that ends at the claim's status.
pub Reach-Trail :
    {w : World} → Reach w → All (λ r. Trail r.claim.id r.claim.status w.db.events) w.db.claims
Reach-Trail {w} r = All-map _ _ (λ x s. s.trail) w.db.claims (Reach-Inv r).sound

-- However they run together, the log has exactly one payment of each claim that is paid and none of
-- any other: no claim is paid twice.
pub Reach-payments :
    {w : World}
    → Reach w
    → All
        (λ r. payments r.claim.id w.db.events ≡ (if status_eq r.claim.status paid then 1 else 0))
        w.db.claims
Reach-payments {w} r = All-map _ _ (λ x s. payments-Trail s.trail) w.db.claims (Reach-Inv r).sound

-- However they run together, each paid claim records an amount above zero and not above the one asked
-- for, and a way of refunding that fits how the customer paid.
pub Reach-IsPaidRight : {w : World} → Reach w → All (λ r. IsPaidRight r.claim) w.db.claims
Reach-IsPaidRight {w} r = All-map _ _ (λ x s. s.paid_right) w.db.claims (Reach-Inv r).sound
