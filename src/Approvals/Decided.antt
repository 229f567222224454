-- ===== src/Approvals/Decided.antt =====
-- Decided approvals over runs of requests.
use trustedoss_portal.Prelude.{
  true, false, some, List, [], ◌∷◌, ◌==◌, ==_iff, Uuid, ok, ◌>>=◌, require, any, Bool-cases, arith,
  ◌≡◌, ◌≢◌, inl, inr, ap, sym, ◌∙◌,
}
use trustedoss_portal.Prelude.{
  >>=-eq-ok, require-eq-ok, commit_inv, find-set_row_ne, find-remove_row_ne, find, key-find,
  set_row, remove_row, any_of_find,
}
use trustedoss_portal.Model.{ApprovalStatus, ComponentApproval, Database}
use trustedoss_portal.Security.{CurrentUser}
use trustedoss_portal.Approvals.Status.{is_terminal, transition_map}
use trustedoss_portal.Approvals.{
  approval_not_found, Transition, transition_row, transition_approval, approval_id_of,
  find_approval, NewApproval, check_create, insert_checked, create_approval, delete_row,
  delete_approval, Request, create, transition, delete, step, run,
}
use trustedoss_portal.Approvals.Guards.{moves_to, Moved, transition_row-Moved}
use trustedoss_portal.Approvals.Moves.{Moved-id}
use trustedoss_portal.Approvals.Unique.{insert_checked-ok}

-- The row is in the store, under its key.
abbrev pub Holds : ComponentApproval → Database → Type 0
Holds row db = find_approval row.id db ≡ some row

same_row :
    (id : Uuid) (old row : ComponentApproval) (db : Database)
    → (id == row.id) ≡ true
    → find_approval id db ≡ some old
    → Holds row db
    → old ≡ row
same_row id old row db here found h =
    let e : id ≡ row.id = (==_iff id row.id).0 here in cc (ap (λ k. find_approval k db) e, found, h)

not_fresh :
    (id : Uuid) (row : ComponentApproval) (db : Database)
    → (id == row.id) ≡ true
    → Holds row db
    → any (λ (r : ComponentApproval). r.id == id) db.component_approvals ≡ true
not_fresh id row db clash h =
    rw ((==_iff id row.id).0 clash) (any_of_find approval_id_of row.id db.component_approvals row h)

no_way_on : (s t : ApprovalStatus) → is_terminal s ≡ true → moves_to s t ≡ false
unfolding transition_map
no_way_on s t h = ground arith

not_deleted :
    (actor : CurrentUser) (row row' : ComponentApproval)
    → is_terminal row.status ≡ true
    → delete_row actor row ≢ ok row'
unfolding delete_row
not_deleted actor row row' h e = ground arith

create-Holds :
    (row : ComponentApproval) (seen db : Database) (req : NewApproval)
    → Holds row db
    → Holds row (create_approval seen db req).1
unfolding create_approval
create-Holds row seen db req h =
    commit_inv (Holds row) (do new ← check_create seen req; insert_checked db new) _ db h
      λ new' passed.
        let (new, _, inserted) = >>=-eq-ok (check_create seen req) _ passed in
        let (same, fresh, _) = insert_checked-ok db new new' inserted in kept new new' same fresh
  where
    kept :
        (new new' : ComponentApproval)
        → new ≡ new'
        → any (λ (r : ComponentApproval). r.id == new.id) db.component_approvals ≡ false
        → find approval_id_of row.id (new' ∷ db.component_approvals) ≡ some row
    kept new new' same fresh = rw (← same) (elim (Bool-cases (new.id == row.id)) [
      | inl clash ↦ cc (not_fresh new.id row db clash h, fresh)
      | inr other ↦ rw other h
    ])

transition-Holds :
    (row : ComponentApproval) (db : Database) (req : Transition)
    → is_terminal row.status ≡ true
    → Holds row db
    → Holds row (transition_approval db req).1
unfolding transition_approval
transition-Holds row db req final h =
    commit_inv (Holds row)
      (do r ← require (find_approval req.id db) approval_not_found; transition_row req r) _ db h
      λ row' passed.
        let (old, found, moved) =
          >>=-eq-ok (require (find_approval req.id db) approval_not_found) _ passed in
        kept old row' (require-eq-ok (find_approval req.id db) approval_not_found found)
          (transition_row-Moved req old row' moved)
  where
    kept :
        (old row' : ComponentApproval)
        → find_approval req.id db ≡ some old
        → Moved req old row'
        → find approval_id_of row.id (set_row approval_id_of req.id row' db.component_approvals)
          ≡ some row
    kept old row' found m = elim (Bool-cases (req.id == row.id)) [
      | inl here ↦
          let e : old ≡ row = same_row req.id old row db here found h in
          cc (
            no_way_on row.status m.target final,
            ap (λ (r : ComponentApproval). moves_to r.status m.target) e,
            m.edge,
          )
      | inr other ↦
          find-set_row_ne approval_id_of req.id row.id row' db.component_approvals
            (Moved-id req old row' m
              ∙ key-find approval_id_of req.id db.component_approvals old found)
            other
          ∙ h
    ]

delete-Holds :
    (row : ComponentApproval) (seen db : Database) (actor : CurrentUser) (id : Uuid)
    → is_terminal row.status ≡ true
    → find_approval id seen ≡ find_approval id db
    → Holds row db
    → Holds row (delete_approval seen db actor id).1
unfolding delete_approval
delete-Holds row seen db actor id final current h =
    commit_inv (Holds row)
      (do r ← require (find_approval id seen) approval_not_found; delete_row actor r) _ db h
      λ row' passed.
        let (old, found, moved) =
          >>=-eq-ok (require (find_approval id seen) approval_not_found) _ passed in
        kept old row' (sym current ∙ require-eq-ok (find_approval id seen) approval_not_found found)
          moved
  where
    kept :
        (old row' : ComponentApproval)
        → find_approval id db ≡ some old
        → delete_row actor old ≡ ok row'
        → find approval_id_of row.id (remove_row approval_id_of id db.component_approvals)
          ≡ some row
    kept old row' found passed = elim (Bool-cases (id == row.id)) [
      | inl here ↦
          let e : old ≡ row = same_row id old row db here found h in
          absurd (not_deleted actor row row' final (rw e at passed))
      | inr other ↦ find-remove_row_ne approval_id_of id row.id db.component_approvals other ∙ h
    ]

-- The row that a delete has loaded without a lock is the row when its DELETE comes.
abbrev pub IsCurrent : Database → Request → Type 0
IsCurrent db (create seen req) = Unit
IsCurrent db (transition req) = Unit
IsCurrent db (delete seen actor id) = find_approval id seen ≡ find_approval id db

abbrev pub AreCurrent : Database → List Request → Type 0
AreCurrent db [] = Unit
AreCurrent db (q ∷ qs) = IsCurrent db q × AreCurrent (step db q) qs

step-Holds :
    (row : ComponentApproval) (db : Database) (q : Request)
    → is_terminal row.status ≡ true
    → IsCurrent db q
    → Holds row db
    → Holds row (step db q)
unfolding step
step-Holds row db (create seen req) final _ h = create-Holds row seen db req h
step-Holds row db (transition req) final _ h = transition-Holds row db req final h
step-Holds row db (delete seen actor id) final current h =
    delete-Holds row seen db actor id final current h

-- An approved or rejected row is in the store unchanged after every run of creates, transitions and
-- deletes, whoever makes them, in which each delete finds the row that it loaded as it loaded it. A
-- delete takes no lock, so without this condition a row that is decided between its load and its DELETE
-- is deleted.
pub decisions_are_final :
    (row : ComponentApproval) (db : Database) (qs : List Request)
    → is_terminal row.status ≡ true
    → AreCurrent db qs
    → find_approval row.id db ≡ some row
    → find_approval row.id (run db qs) ≡ some row
unfolding run
decisions_are_final row db [] final _ h = h
decisions_are_final row db (q ∷ qs) final current h =
    decisions_are_final row (step db q) qs final current.1 (step-Holds row db q final current.0 h)
