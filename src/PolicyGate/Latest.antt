-- ===== src/PolicyGate/Latest.antt =====
-- The scan that the verdict rests on.
use trustedoss_portal.Prelude.{
  none, any, insert_in, Bool-cases, inl, inr, select-All, Bool, true, false, not, ◌||◌, some, List,
  [], ◌∷◌, leb, Uuid, arith, ◌≡◌, refl,
}
use trustedoss_portal.Prelude.{
  All, select, order_by, All-order_by, All-order_by_inv, All-select, All-select_inv, All-map,
  IsOrdered, IsOrdered-order_by, Leads,
}
use mathlib.Core.Path.{subst}
use mathlib.Core.List.{Mem}
use trustedoss_portal.PolicyGate.Blocked.{self_All}
use trustedoss_portal.Model.{Scan, Database}
use trustedoss_portal.PolicyGate.{succeeded_of, newest_first, first, latest_succeeded_scan}

total : (a b : Scan) → newest_first a b ≡ false → newest_first b a ≡ true
total a b h = ground arith

trans : (a b c : Scan) → newest_first a b ≡ true → newest_first b c ≡ true → newest_first a c ≡ true
trans a b c h k = ground arith

newest_first_refl : (a : Scan) → newest_first a a ≡ true
newest_first_refl a = ground arith

leads_rest :
    (s : Scan) (l : List Scan)
    → first l ≡ some s
    → IsOrdered newest_first total trans l
    → All (λ r. newest_first s r ≡ true) l
leads_rest s [] e h = cc
leads_rest s (x ∷ xs) e h =
    let x≡s : x ≡ s = cc e in
    (rw x≡s (newest_first_refl s), subst (λ z. Leads newest_first total trans z xs) x≡s h.0)

first-All : (P : Scan → Type 0) (s : Scan) (l : List Scan) → first l ≡ some s → All P l → P s
first-All P s [] e h = cc
first-All P s (x ∷ xs) e h = subst P (cc e) h.0

not_newer :
    (p : Bool) (s r : Scan)
    → (p ≡ true → newest_first s r ≡ true)
    → (not p || leb r.created_at s.created_at) ≡ true
not_newer true s r f = ground (arith, f refl)
not_newer false s r f = refl

-- The scan of the verdict belongs to the project and succeeded, and no other succeeded scan of
-- the project was created after it.
pub latest_succeeded_scan-newest :
    (db : Database) (project_id : Uuid) (s : Scan)
    → latest_succeeded_scan db project_id ≡ some s
    → (succeeded_of project_id s ≡ true)
      × All
          (λ r. (not (succeeded_of project_id r) || leb r.created_at s.created_at) ≡ true)
          db.scans
unfolding latest_succeeded_scan
latest_succeeded_scan-newest db project_id s h =
    let p = succeeded_of project_id in
    let rows = select p db.scans in
    (
      first-All (λ r. p r ≡ true) s (order_by newest_first rows) h
          (All-order_by newest_first (λ r. p r ≡ true) rows
            (All-select (λ r. p r ≡ true) p db.scans (λ r e. e))),
      All-map _ _ db.scans (λ r f. not_newer (p r) s r f)
          (All-select_inv (λ r. newest_first s r ≡ true) p db.scans
            (All-order_by_inv newest_first (λ r. newest_first s r ≡ true) rows
              (leads_rest s (order_by newest_first rows) h
                (IsOrdered-order_by newest_first total trans rows)))),
    )

-- The scan of the verdict is a row of the table.
pub latest_succeeded_scan-Mem :
    (db : Database) (project_id : Uuid) (s : Scan)
    → latest_succeeded_scan db project_id ≡ some s
    → Mem s db.scans
unfolding latest_succeeded_scan
latest_succeeded_scan-Mem db project_id s h =
    let rows = select (succeeded_of project_id) db.scans in
    first-All (λ r. Mem r db.scans) s (order_by newest_first rows) h
      (All-order_by newest_first (λ r. Mem r db.scans) rows
        (select-All (λ r. Mem r db.scans) (succeeded_of project_id) db.scans (self_All db.scans)))

insert_in-some : (x : Scan) (l : List Scan) → first (insert_in newest_first x l) ≡ none → ⊥
unfolding insert_in
insert_in-some x [] h = cc h
insert_in-some x (y ∷ l) h = elim (Bool-cases (newest_first x y)) [
  | inl before ↦ cc (rw before at h)
  | inr after ↦ cc (rw after at h)
]

none_picked :
    (p : Scan → Bool) (scans : List Scan)
    → first (order_by newest_first (select p scans)) ≡ none
    → any p scans ≡ false
unfolding order_by
none_picked p [] h = refl
none_picked p (s ∷ scans) h = elim (Bool-cases (p s)) [
  | inl here ↦ absurd (insert_in-some s (order_by newest_first (select p scans)) (rw here at h))
  | inr other ↦ rw other (none_picked p scans (rw other at h))
]

pub latest_succeeded_scan-none :
    (db : Database) (project_id : Uuid)
    → latest_succeeded_scan db project_id ≡ none
    → any (succeeded_of project_id) db.scans ≡ false
unfolding latest_succeeded_scan
latest_succeeded_scan-none db project_id h = none_picked (succeeded_of project_id) db.scans h
