-- ===== src/Web/Lifecycle/Edges.antt =====
-- The diagram of a task's statuses, and that the server keeps to it.
use text.Mathlib.TextPositions.{eq_refl}
use canalis.Base.{
  String, Option, none, some, Bool, true, false, ◌&&◌, ◌==◌, if◌then◌else◌, ◌≡◌, refl, ap, subst,
  sym, ◌∙◌, inl, inr, arith, eq_iff, Bool-cases,
}
use canalis.Base.Int.{ℤ, ◌+ℤ◌, ◌-ℤ◌}
use canalis.Base.Action.{Action, returned, Thrown, own, ◌>>◌, >>-eq-returned, pure, throw}
use canalis.Application.Errors.{ApplicationError}
use canalis.Application.Tasks.{PersistedTask}
use canalis.Core.Domain.{TaskStatus, draft, active, completed, cancelled, archived}
use canalis.Persistence.Tasks.{TaskTable, is_any, with_status, meets, update_found, set_status}
use canalis.Web.Lifecycle.{
  TaskLifecycleAction, submit, cancel, archive, allowed_statuses, next_status, new_expiry,
  transition_refused, task_changed, Site, assert_transition, tested, update, change_status,
}

infix 40 ◌⟶◌
pub data ◌⟶◌ : TaskStatus → TaskStatus → Type 0 where
  submitted : draft ⟶ active
  draft_cancelled : draft ⟶ cancelled
  active_cancelled : active ⟶ cancelled
  draft_archived : draft ⟶ archived
  completed_archived : completed ⟶ archived
  cancelled_archived : cancelled ⟶ archived

allowed-⟶ :
    (action : TaskLifecycleAction) (status : TaskStatus)
    → is_any (allowed_statuses action) status ≡ true
    → status ⟶ next_status action
allowed-⟶ submit draft e = submitted
allowed-⟶ submit active e = cc e
allowed-⟶ submit completed e = cc e
allowed-⟶ submit cancelled e = cc e
allowed-⟶ submit archived e = cc e
allowed-⟶ cancel draft e = draft_cancelled
allowed-⟶ cancel active e = active_cancelled
allowed-⟶ cancel completed e = cc e
allowed-⟶ cancel cancelled e = cc e
allowed-⟶ cancel archived e = cc e
allowed-⟶ archive draft e = draft_archived
allowed-⟶ archive active e = cc e
allowed-⟶ archive completed e = completed_archived
allowed-⟶ archive cancelled e = cancelled_archived
allowed-⟶ archive archived e = cc e

-- A change of the task's row by an edge of the diagram, and of no other row.
pub record Updated (action : TaskLifecycleAction) (id wallet : String) (existing : PersistedTask)
    (now : ℤ) (before after : TaskTable) : Type 0 where
  pub row : PersistedTask
  pub found : before id ≡ some row
  pub owned : row.task.owner ≡ wallet
  pub edge : row.task.status ⟶ next_status action
  pub changed :
      after id ≡ some (with_status (next_status action) now (new_expiry action now existing) row)
  pub others : (other : String) → (id == other) ≡ false → after other ≡ before other

-- The status that an action asks for.
abbrev pub Asks : TaskLifecycleAction → TaskStatus → Type 0
Asks submit status = status ≡ active
Asks cancel status = status ≡ cancelled
Asks archive status = status ≡ archived

-- A submitted task has, from now on, the duration that it was read with.
abbrev pub Expires : TaskLifecycleAction → PersistedTask → ℤ → (old new : ℤ) → Type 0
Expires submit existing now old new =
    new ≡ now +ℤ (existing.task.expires_at -ℤ existing.task.created_at)
Expires cancel existing now old new = new ≡ old
Expires archive existing now old new = new ≡ old

-- A change of one task's status by an edge of the diagram, and of no other row.
pub record Moved (action : TaskLifecycleAction) (id wallet : String) (existing : PersistedTask)
    (now : ℤ) (before after : TaskTable) : Type 0 where
  pub old : PersistedTask
  pub new : PersistedTask
  pub was : before id ≡ some old
  pub is : after id ≡ some new
  pub owned : old.task.owner ≡ wallet
  pub edge : old.task.status ⟶ new.task.status
  pub asks : Asks action new.task.status
  pub expiry : Expires action existing now old.task.expires_at new.task.expires_at
  pub dated : new.updated_at ≡ now
  pub mode : new.mode ≡ old.mode
  pub rest :
      new.task ≡ record old.task { status = new.task.status; expires_at = new.task.expires_at }
  pub others : (other : String) → (id == other) ≡ false → after other ≡ before other

Updated-Moved :
    (action : TaskLifecycleAction) (id wallet : String) (existing : PersistedTask) (now : ℤ)
    (before after : TaskTable)
    → Updated action id wallet existing now before after
    → Moved action id wallet existing now before after
Updated-Moved action id wallet existing now before after u = record {
  old = u.row;
  new = with_status (next_status action) now (new_expiry action now existing) u.row;
  was = u.found;
  is = u.changed;
  owned = u.owned;
  edge = u.edge;
  asks = asks action;
  expiry = expires action;
  dated = refl;
  mode = refl;
  rest = refl;
  others = u.others;
}
  where
    asks : (a : TaskLifecycleAction) → Asks a (next_status a)
    asks submit = refl
    asks cancel = refl
    asks archive = refl

    expires :
        (a : TaskLifecycleAction)
        → Expires a existing now u.row.task.expires_at
            (with_status (next_status a) now (new_expiry a now existing) u.row).task.expires_at
    expires submit = refl
    expires cancel = refl
    expires archive = refl

-- A test that throws unless it holds.
unless :
    {S : Type 0} (b : Bool) (t : Thrown ApplicationError) (s s' : S) (u : Unit {0})
    → (if b then pure tt else throw t) s ≡ (returned u, s')
    → (b ≡ true) × (s ≡ s')
unless true t s s' u e = (refl, ap (λ x. x.1) e)
unless false t s s' u e = cc (ap (λ x. x.0) e)

meets-is_any :
    (action : TaskLifecycleAction) (status : TaskStatus)
    → meets (allowed_statuses action) status ≡ is_any (allowed_statuses action) status
meets-is_any submit status = refl
meets-is_any cancel status = refl
meets-is_any archive status = refl

module _ (action : TaskLifecycleAction) (id wallet : String) (existing : PersistedTask)
    (now : ℤ) where
  -- The statement of the handler.
  pub set_next : TaskTable → Bool × TaskTable
  set_next table =
      set_status id wallet (next_status action) now (new_expiry action now existing)
        (allowed_statuses action) table

  pub set_next-Updated :
      (table : TaskTable)
      → (set_next table).0 ≡ true
      → Updated action id wallet existing now table (set_next table).1
  unfolding set_next set_status
  set_next-Updated table e = outcome (table id) refl e
    where
      new : PersistedTask → PersistedTask
      new = with_status (next_status action) now (new_expiry action now existing)

      outcome :
          (row : Option PersistedTask)
          → table id ≡ row
          → (update_found id wallet
              (next_status action)
              now
              (new_expiry action now existing)
              (allowed_statuses action)
              table
              row).0
            ≡ true
          → Updated action id wallet existing now table
              (update_found id wallet
                (next_status action)
                now
                (new_expiry action now existing)
                (allowed_statuses action)
                table
                row).1
      outcome none p q = cc q
      outcome (some row) p q =
          elim (Bool-cases
            (row.task.owner == wallet && meets (allowed_statuses action) row.task.status)) [
              | inl good ↦ rw good (record {
                row = row;
                found = p;
                owned = ground (arith, good, eq_iff row.task.owner wallet);
                edge =
                    allowed-⟶ action row.task.status
                      (ground (arith, good, meets-is_any action row.task.status));
                changed = rw (eq_refl id) refl;
                others = λ other n. rw n refl;
              })
              | inr bad ↦ let impossible : ⊥ = ground (arith, bad, q) in absurd impossible
            ]

  pub set_next-kept : (table : TaskTable) → (set_next table).0 ≡ false → (set_next table).1 ≡ table
  unfolding set_next set_status
  set_next-kept table e = outcome (table id) e
    where
      outcome :
          (row : Option PersistedTask)
          → (update_found id wallet
              (next_status action)
              now
              (new_expiry action now existing)
              (allowed_statuses action)
              table
              row).0
            ≡ false
          → (update_found id wallet
              (next_status action)
              now
              (new_expiry action now existing)
              (allowed_statuses action)
              table
              row).1
            ≡ table
      outcome none q = refl
      outcome (some row) q =
          elim (Bool-cases
            (row.task.owner == wallet && meets (allowed_statuses action) row.task.status)) [
              | inl good ↦ let impossible : ⊥ = ground (arith, good, q) in absurd impossible
              | inr bad ↦ rw bad refl
            ]

module _ {W : Type 0} (providers_available : Action (Site W) ApplicationError (Unit {0}))
    (action : TaskLifecycleAction) (id wallet : String) (existing : PersistedTask) (now : ℤ) where
  -- The action in which other requests may have run before the update.
  abbrev pub asked : Site W → Site W
  asked s = (tested providers_available action s).1

  -- When an action of the route returns, whatever other requests did since the task was read, the
  -- task had, right before the update, the caller as its owner and a status from which the diagram
  -- has an edge to the one that the action asks for, which it has afterwards. Exactly its row was
  -- changed, in its status, its time of change, which is now, and, on submission only, its expiry,
  -- which is now plus the duration that the task was read with.
  pub change_status-Moved :
      (s s' : Site W)
      → change_status providers_available action id wallet existing now s ≡ (returned tt, s')
      → Moved action id wallet existing now (asked s).tasks s'.tasks
  unfolding change_status set_next
  change_status-Moved s s' e =
      let first = assert_transition existing.task.status action in
      let second = tested providers_available action in
      let third = update providers_available action id wallet existing now in
      let (u, s1, passed, rest) = >>-eq-returned first (second >> third) s e in
      let (u', s2, answered, last) = >>-eq-returned second third s1 rest in
      let (_, same) =
        unless (is_any (allowed_statuses action) existing.task.status)
          (own (transition_refused existing.task.status action)) s s1 u passed in
      let at : s2 ≡ asked s = ap (λ x. x.1) (sym answered) ∙ ap (λ x. (second x).1) (sym same) in
      let (changed, end) =
        unless (set_next action id wallet existing now s2.tasks).0 (own task_changed)
          (record s2 { tasks = (set_next action id wallet existing now s2.tasks).1 }) s' tt last in
      Updated-Moved action id wallet existing now (asked s).tasks s'.tasks (
        subst (λ x. Updated action id wallet existing now x s'.tasks) (ap (λ x. x.tasks) at)
          (subst (λ x. Updated action id wallet existing now s2.tasks x) (ap (λ x. x.tasks) end)
            (set_next-Updated action id wallet existing now s2.tasks changed)))
