-- ===== src/Risk/Blocked.antt =====
-- internal/store/contact.go with internal/store/query.go and internal/domain/risk.go: what an owner who
-- marks a contact changes for the claims that come after.
use claw_hub.Prelude.{
  ℕ, Bool, true, false, Option, some, List, [], ◌∷◌, map, any, find?-any, find?-In, find?-passes,
  In, if◌then◌else◌, ok, ◌≡◌, ◌≢◌, refl, sym, ap, ◌∙◌, arith, bind-ok, ok-injective, Bool-cases,
  inl, inr, subst,
}
use claw_hub.Prelude.Int.{ℤ}
use claw_hub.Prelude.Texts.{Text}
use claw_hub.Claim.Status.{on_hold}
use claw_hub.ClaimStore.Table.{Row}
use claw_hub.Risk.Rules.{normal, ContactStatus, blocked, Policy, evaluate, parse_contact_status}
use claw_hub.Risk.Facts.{
  Flag, RiskQuery, is_about, risk_facts_for, risk_facts-on_hold, strongest_from,
  strongest_contact_status, stronger_contact,
}
use claw_hub.Risk.Contacts.{
  ContactStatusRequest, is_flag, upsert_flag, parse_kind, kind_of, set_contact_status,
  handle_set_contact_status, hash_or, status_or,
}

-- The hash that a claim has for an identity of a kind.
abbrev pub asked_hash : RiskQuery → Bool → ℕ
asked_hash q phone = if phone then q.phone_hash else q.account_hash

In-map : {A : Type 0} (f : A → A) (x : A) (xs : List A) → In x xs → In (f x) (map f xs)
In-map f x [] i = absurd i
In-map f x (y ∷ ys) (inl e) = inl (ap f e)
In-map f x (y ∷ ys) (inr i) = inr (In-map f x ys i)

flag_about :
    (q : RiskQuery) (f g : Flag)
    → f.store_id ≡ q.store_id
    → f.identity_hash ≡ asked_hash q f.is_phone
    → is_flag f.store_id f.identity_hash f.is_phone g ≡ true
    → is_about q (record g { manual_status = f.manual_status }) ≡ true
unfolding is_flag
flag_about q f g s h k = ground arith

own_about :
    (q : RiskQuery) (f : Flag)
    → f.store_id ≡ q.store_id
    → f.identity_hash ≡ asked_hash q f.is_phone
    → is_about q f ≡ true
own_about q f s h = ground arith

-- Among the flags after a change one is about the identity and has the new status.
upsert_flag-In :
    (q : RiskQuery) (f : Flag) (flags : List Flag)
    → f.store_id ≡ q.store_id
    → f.identity_hash ≡ asked_hash q f.is_phone
    → (g : Flag) × In g (upsert_flag f flags)
      × (is_about q g ≡ true)
      × (g.manual_status ≡ f.manual_status)
unfolding upsert_flag
upsert_flag-In q f flags s h =
    let own = is_flag f.store_id f.identity_hash f.is_phone in
    let set = λ (g : Flag). if own g then record g { manual_status = f.manual_status } else g in
    elim (Bool-cases (any own flags)) [
      | inr new ↦ rw new (f, inl refl, own_about q f s h, refl)
      | inl old ↦
          let (g, e) = find?-any own flags old in
          let hit = find?-passes own flags e in
          let there = In-map set g flags (find?-In own flags e) in
          rw old (
            record g { manual_status = f.manual_status },
            subst (λ x. In x (map set flags)) (rw hit refl) there,
            flag_about q f g s h hit,
            refl,
          )
    ]

hash_or-ok : {o : Option ℕ} {h : ℕ} → o ≡ some h → hash_or o ≡ ok h
hash_or-ok e = ap hash_or e

status_or-ok : {o : Option ContactStatus} {st : ContactStatus} → o ≡ some st → status_or o ≡ ok st
status_or-ok e = ap status_or e

-- A request that is served changes the flags by the one upsert it describes.
handle_set_contact_status-runs :
    (hex : Text → Option ℕ) (store : ℕ) (path : Text) (req : ContactStatusRequest)
    (flags flags' : List Flag) (hash : ℕ) (st : ContactStatus) (phone : Bool)
    → handle_set_contact_status hex store path req flags ≡ ok flags'
    → hex path ≡ some hash
    → parse_contact_status req.status ≡ some st
    → parse_kind (kind_of req) ≡ ok phone
    → upsert_flag
        (record { store_id = store; is_phone = phone; identity_hash = hash; manual_status = st })
        flags
      ≡ flags'
unfolding handle_set_contact_status set_contact_status
handle_set_contact_status-runs hex store path req flags flags' hash st phone e h s k =
    let (hash', h', e1) = bind-ok (hash_or (hex path)) _ e in
    let (st1, s1, e2) = bind-ok (status_or (parse_contact_status req.status)) _ e1 in
    let (st', s', e3) = bind-ok (status_or (parse_contact_status req.status)) _ e2 in
    let (phone', k', e4) = bind-ok (parse_kind (kind_of req)) _ e3 in
    let same_hash = ok-injective (sym (hash_or-ok h) ∙ h') in
    let same_st = ok-injective (sym (status_or-ok s) ∙ s') in
    let same_kind = ok-injective (sym k ∙ k') in
    rw (same_hash, same_st, same_kind) (ok-injective e4)

-- Once an owner has marked a contact as blocked, every later claim to the same store with that
-- phone number, or with that account, is put on hold, whatever was noted of the contact before
-- and whatever the claim's amount and the store's policy are.
pub handle_set_contact_status-blocks :
    (hex : Text → Option ℕ) (store : ℕ) (path : Text) (req : ContactStatusRequest)
    (flags flags' : List Flag) (hash : ℕ) (phone : Bool) (q : RiskQuery) (rows : List Row)
    (amount : ℤ) (p : Policy)
    → handle_set_contact_status hex store path req flags ≡ ok flags'
    → hex path ≡ some hash
    → parse_contact_status req.status ≡ some blocked
    → parse_kind (kind_of req) ≡ ok phone
    → store ≡ q.store_id
    → hash ≡ asked_hash q phone
    → (evaluate (risk_facts_for q rows flags' amount) p).status ≡ on_hold
handle_set_contact_status-blocks hex store path req flags flags' hash phone q rows amount p e h s k
      own same =
    let set : Flag = record {
      store_id = store;
      is_phone = phone;
      identity_hash = hash;
      manual_status = blocked;
    } in
    let runs =
      handle_set_contact_status-runs hex store path req flags flags' hash blocked phone e h s k in
    let (g, i, a, b) = upsert_flag-In q set flags own same in
    risk_facts-on_hold q rows flags' amount p (inl (g, subst (λ fs. In g fs) runs i, a, b))

not_about :
    (q : RiskQuery) (store : ℕ) (f : Flag)
    → store ≢ q.store_id
    → f.store_id ≡ store
    → is_about q f ≡ false
not_about q store f other own = ground arith

-- Changing the flags of another store leaves every step of the search as it was.
set-unseen :
    (q : RiskQuery) (f g : Flag)
    → f.store_id ≢ q.store_id
    → is_flag f.store_id f.identity_hash f.is_phone g ≡ true
    → is_about q g ≡ false
unfolding is_flag
set-unseen q f g other e = ground arith

strongest_from-unseen :
    (q : RiskQuery) (f : Flag) (flags : List Flag) (best : ContactStatus)
    → f.store_id ≢ q.store_id
    → strongest_from q best (
        map
          (λ g.
            if is_flag f.store_id f.identity_hash f.is_phone g
            then record g { manual_status = f.manual_status }
            else g)
          flags)
      ≡ strongest_from q best flags
unfolding strongest_from
strongest_from-unseen q f [] best other = refl
strongest_from-unseen q f (g ∷ flags) best other =
    elim (Bool-cases (is_flag f.store_id f.identity_hash f.is_phone g)) [
      | inr miss ↦ rw miss (strongest_from-unseen q f flags _ other)
      | inl hit ↦ rw (hit, set-unseen q f g other hit) (strongest_from-unseen q f flags best other)
    ]

upsert_flag-unseen :
    (q : RiskQuery) (f : Flag) (flags : List Flag)
    → f.store_id ≢ q.store_id
    → strongest_contact_status q (upsert_flag f flags) ≡ strongest_contact_status q flags
unfolding upsert_flag strongest_contact_status strongest_from
upsert_flag-unseen q f flags other =
    elim (Bool-cases (any (is_flag f.store_id f.identity_hash f.is_phone) flags)) [
      | inl old ↦ rw old (strongest_from-unseen q f flags _ other)
      | inr new ↦ rw new (
          ap
            (λ b.
              strongest_from q (if b then stronger_contact normal f.manual_status else normal)
                flags)
            (not_about q f.store_id f other refl))
    ]

-- What the owner of one store notes of a contact changes nothing in how the claims of another
-- store are judged, also when the same customer makes them.
pub handle_set_contact_status-unseen :
    (hex : Text → Option ℕ) (store : ℕ) (path : Text) (req : ContactStatusRequest)
    (flags flags' : List Flag) (q : RiskQuery) (rows : List Row) (amount : ℤ) (p : Policy)
    → handle_set_contact_status hex store path req flags ≡ ok flags'
    → store ≢ q.store_id
    → evaluate (risk_facts_for q rows flags' amount) p
      ≡ evaluate (risk_facts_for q rows flags amount) p
unfolding handle_set_contact_status set_contact_status risk_facts_for
handle_set_contact_status-unseen hex store path req flags flags' q rows amount p e other =
    let (hash, h, e1) = bind-ok (hash_or (hex path)) _ e in
    let (st1, s1, e2) = bind-ok (status_or (parse_contact_status req.status)) _ e1 in
    let (st, s, e3) = bind-ok (status_or (parse_contact_status req.status)) _ e2 in
    let (phone, k, e4) = bind-ok (parse_kind (kind_of req)) _ e3 in
    let set : Flag = record {
      store_id = store;
      is_phone = phone;
      identity_hash = hash;
      manual_status = st;
    } in
    let same =
      ap (strongest_contact_status q) (sym (ok-injective e4))
      ∙ upsert_flag-unseen q set flags other in
    ap
      (λ strongest.
        evaluate (record (risk_facts_for q rows flags amount) { manual_status = strongest }) p)
      same
