-- ===== src/Web/Lifecycle/History.antt =====
-- What becomes of a task over any sequence of the lifecycle's changes, whoever makes them.
use text.Mathlib.TextEquality.{eq_iff}
use canalis.Base.{String, none, some, ◌==◌, ◌≡◌, refl, ap, sym, subst, ◌∙◌, inl, inr, Bool-cases}
use canalis.Base.Int.{ℤ}
use canalis.Application.Tasks.{PersistedTask}
use canalis.Core.Domain.{TaskStatus}
use canalis.Persistence.Tasks.{TaskTable, put_task, with_status}
use canalis.Web.Lifecycle.{TaskLifecycleAction, next_status, new_expiry}
use canalis.Web.Lifecycle.Edges.{◌⟶◌, Updated, set_next, set_next-Updated, set_next-kept}

-- One statement on the table: that of the lifecycle, whatever task its request has read before, or
-- the one that adds a task.
pub data Step (t t' : TaskTable) : Type 0 where
  sets :
      (action : TaskLifecycleAction) (id wallet : String) (existing : PersistedTask) (now : ℤ)
      → t' ≡ (set_next action id wallet existing now t).1
      → Step t t'
  adds : (id : String) (row : PersistedTask) → t id ≡ none → t' ≡ put_task id row t → Step t t'

pub data Reach (t : TaskTable) : TaskTable → Type 0 where
  here : Reach t t
  next : {t' t'' : TaskTable} → Reach t t' → Step t' t'' → Reach t t''

infix 40 ◌⟶*◌
pub data ◌⟶*◌ (s : TaskStatus) : TaskStatus → Type 0 where
  stay : s ⟶* s
  then : {t u : TaskStatus} → s ⟶* t → t ⟶ u → s ⟶* u

-- The same task, at a status that the diagram leads to.
pub record Became (old new : PersistedTask) : Type 0 where
  pub path : old.task.status ⟶* new.task.status
  pub budget : new.task.budget ≡ old.task.budget
  pub policy : new.task.policy ≡ old.task.policy
  pub owner : new.task.owner ≡ old.task.owner
  pub mode : new.mode ≡ old.mode

Updated-Became :
    {action : TaskLifecycleAction} {id' wallet : String} {existing : PersistedTask} {now : ℤ}
    {t t' : TaskTable} (id : String) (old row : PersistedTask)
    → Updated action id' wallet existing now t t'
    → Became old row
    → t id ≡ some row
    → (new : PersistedTask) × (t' id ≡ some new) × Became old new
Updated-Became {action} {id'} {wallet} {existing} {now} {t} {t'} id old row m b e =
    elim (Bool-cases (id' == id)) [
      | inr other ↦ (row, m.others id other ∙ e, b)
      | inl same ↦
          let at : id' ≡ id = (eq_iff id' id).0 same in
          let found : m.row ≡ row = cc (sym m.found ∙ ap t at ∙ e) in
          let new = with_status (next_status action) now (new_expiry action now existing) m.row in
          let b' = subst (λ r. Became old r) (sym found) b in
          (
            new,
            sym (ap t' at) ∙ m.changed,
            record {
              path = then b'.path m.edge;
              budget = b'.budget;
              policy = b'.policy;
              owner = b'.owner;
              mode = b'.mode;
            },
          )
    ]

Step-Became :
    {t t' : TaskTable} (id : String) (old row : PersistedTask)
    → Step t t'
    → Became old row
    → t id ≡ some row
    → (new : PersistedTask) × (t' id ≡ some new) × Became old new
Step-Became {t} {t'} id old row (sets action id' wallet existing now p) b e =
    elim (Bool-cases (set_next action id' wallet existing now t).0) [
      | inl changed ↦
          Updated-Became id old row
            (subst (λ x. Updated action id' wallet existing now t x) (sym p)
              (set_next-Updated action id' wallet existing now t changed))
            b e
      | inr same ↦
          (row, ap (λ x. x id) (p ∙ set_next-kept action id' wallet existing now t same) ∙ e, b)
    ]
Step-Became {t} {t'} id old row (adds id' added absent p) b e = elim (Bool-cases (id' == id)) [
  | inl same ↦ cc (sym absent ∙ ap t ((eq_iff id' id).0 same) ∙ e)
  | inr other ↦ (row, ap (λ x. x id) p ∙ rw other e, b)
]

-- Over any sequence of the lifecycle's statements and of new tasks, a task stays in the table with the
-- same budget, policy, owner and mode, and its status is one that the diagram leads to from its own.
pub Reach-Became :
    {t t' : TaskTable} (id : String) (row : PersistedTask)
    → Reach t t'
    → t id ≡ some row
    → (new : PersistedTask) × (t' id ≡ some new) × Became row new
Reach-Became id row here e =
    (row, e, record { path = stay; budget = refl; policy = refl; owner = refl; mode = refl })
Reach-Became id row (next reach step) e =
    let (mid, at, b) = Reach-Became id row reach e in Step-Became id row mid step b at
