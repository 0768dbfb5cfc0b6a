-- ===== src/Notify/Marks.antt =====
-- internal/store/push.go: what `MarkPushSent` makes of the row of its id and of the others.
use claw_hub.Prelude.{
  ℕ, ◌+◌, Bool, true, false, Option, none, some, List, [], ◌∷◌, find?, ◌==◌, leb, if◌then◌else◌,
  ◌≡◌, refl, sym, ap, ◌∙◌, arith, All, All-keep, All-map, Bool-cases, inl, inr, subst, eq_of_some,
}
use claw_hub.Notify.Subscriptions.{PushRow, has_id, mark_push_sent, struck, reached}
use claw_hub.Notify.Apart.{AreApart, All-change}

-- No row has the id.
abbrev pub IsAbsent : ℕ → List PushRow → Type 0
IsAbsent id rows = All (λ r. has_id id r ≡ false) rows

-- What a row becomes.
abbrev pub answered : Bool → ℕ → PushRow → Option PushRow
answered false now r = some (record r { failures = 0; last_sent_at = some now })
answered true now r =
    if leb 3 (r.failures + 1) then none else some (record r { failures = r.failures + 1 })

pub find?-absent : (id : ℕ) (rows : List PushRow) → IsAbsent id rows → find? (has_id id) rows ≡ none
find?-absent id [] a = refl
find?-absent id (r ∷ rows) a = rw a.0 (find?-absent id rows a.1)

reached_id : (id id' now : ℕ) (r : PushRow) → has_id id (reached id' now r) ≡ has_id id r
unfolding reached has_id
reached_id id id' now r = ground arith

struck_id : (id id' : ℕ) (r : PushRow) → has_id id (struck id' r) ≡ has_id id r
unfolding struck has_id
struck_id id id' r = ground arith

pub mark_push_sent-IsAbsent :
    (id id' : ℕ) (gone : Bool) (now : ℕ) (rows : List PushRow)
    → IsAbsent id rows
    → IsAbsent id (mark_push_sent id' gone now rows)
unfolding mark_push_sent
mark_push_sent-IsAbsent id id' false now rows a =
    All-change _ _ (reached id' now) (λ r h. reached_id id id' now r ∙ h) rows a
mark_push_sent-IsAbsent id id' true now rows a =
    All-keep _ _ _ (All-change _ _ (struck id') (λ r h. struck_id id id' r ∙ h) rows a)

-- The row of another id is as it was.
pub mark_push_sent-other :
    (id id' : ℕ) (gone : Bool) (now : ℕ) (rows : List PushRow)
    → (id' == id) ≡ false
    → find? (has_id id) (mark_push_sent id' gone now rows) ≡ find? (has_id id) rows
unfolding mark_push_sent reached struck has_id
mark_push_sent-other id id' false now [] n = refl
mark_push_sent-other id id' true now [] n = refl
mark_push_sent-other id id' false now (r ∷ rows) n =
    let rest = mark_push_sent-other id id' false now rows n in
    elim (Bool-cases (r.sub.id == id)) [
      | inl e ↦ (let miss : (r.sub.id == id') ≡ false = ground (arith, n) in rw (miss, e) refl)
      | inr e ↦ elim (Bool-cases (r.sub.id == id')) [
        | inl f ↦ rw (f, e) rest
        | inr f ↦ rw (f, e) rest
      ]
    ]
mark_push_sent-other id id' true now (r ∷ rows) n =
    let rest = mark_push_sent-other id id' true now rows n in
    elim (Bool-cases (r.sub.id == id)) [
      | inl e ↦
          (let miss : (r.sub.id == id') ≡ false = ground (arith, n) in rw (miss, miss, e) refl)
      | inr e ↦ elim (Bool-cases (r.sub.id == id')) [
        | inr f ↦ rw (f, f, e) rest
        | inl f ↦ elim (Bool-cases (leb 3 (r.failures + 1))) [
          | inl g ↦ rw (f, f, g, e) rest
          | inr g ↦ rw (f, f, g, e) rest
        ]
      ]
    ]

-- The row of the id is what the answer makes of it.
pub mark_push_sent-own :
    (id : ℕ) (gone : Bool) (now : ℕ) (rows : List PushRow) (r : PushRow)
    → AreApart rows
    → find? (has_id id) rows ≡ some r
    → find? (has_id id) (mark_push_sent id gone now rows) ≡ answered gone now r
unfolding mark_push_sent reached struck has_id AreApart
mark_push_sent-own id gone now [] r a h = absurd (cc h)
mark_push_sent-own id false now (x ∷ rows) r a h = elim (Bool-cases (x.sub.id == id)) [
  | inl e ↦ rw (e, e) (ap (λ y. answered false now y) (eq_of_some (rw e at h)))
  | inr e ↦ rw (e, e) (mark_push_sent-own id false now rows r a.1 (rw e at h))
]
mark_push_sent-own id true now (x ∷ rows) r a h = elim (Bool-cases (x.sub.id == id)) [
  | inr e ↦ rw (e, e, e) (mark_push_sent-own id true now rows r a.1 (rw e at h))
  | inl e ↦
      let same : x ≡ r = eq_of_some (rw e at h) in
      let gone_id : x.sub.id ≡ id = ground (arith, e) in
      let absent : IsAbsent id rows =
        All-map _ _ (λ y k. subst (λ i. has_id i y ≡ false) gone_id k.1) rows a.0 in
      elim (Bool-cases (leb 3 (x.failures + 1))) [
        | inl g ↦
            rw (e, e, g)
              (find?-absent id _ (mark_push_sent-IsAbsent id id true now rows absent)
                ∙ sym (subst (λ y. answered true now y ≡ none) same (rw g refl)))
        | inr g ↦
            rw (e, e, g, e)
              (sym (
                subst (λ y. answered true now y ≡ some (record x { failures = x.failures + 1 }))
                  same (rw g refl)))
      ]
]
