-- ===== src/Runtime/Tasks.antt =====
-- `SimExecutor` (internal/runtime/sim.go): `Start` is idempotent and re-attaches, `Stop` ends a task.
use k3_control_plane.Base.{
  String, true, false, ◌≡◌, ◌↔◌, ◌||◌, refl, sym, ap, ◌∙◌, none, some, [], ◌∷◌, inl, inr, arith,
  ◌==◌, eq_iff, Bool-cases, Option-cases, if◌then◌else◌, In, str_ltb,
}
use k3_control_plane.Base.Assoc
use k3_control_plane.Base.Assoc.{Assoc, get-put, get-remove, has-put}
use k3_control_plane.Base.Sort.{In-sort_by}
use k3_control_plane.Api.{Assignment}
use k3_control_plane.Runtime.{
  Reporter, SimTask, SimExecutor, report_task, new_task, start, stop, keys_of, list_tasks,
}

get-put_self :
    {V : Type 0} (k : String) (v : V) (m : Assoc V) → Assoc.get k (Assoc.put k v m) ≡ some v
get-put_self k v m = ground (arith, get-put k k v m, eq_iff k k)

put_again :
    {V : Type 0} (k : String) (v w : V) (m : Assoc V)
    → Assoc.put k w (Assoc.put k v m) ≡ Assoc.put k w m
unfolding Assoc.put
put_again k v w [] = ground (arith, eq_iff k k)
put_again k v w ((j, u) ∷ m) = ground (arith, put_again k v w m, eq_iff j k, eq_iff k k)

module _ (s : SimExecutor) (a : Assignment) (report : Reporter) where
  start_of_present :
      (task : SimTask)
      → Assoc.get a.id s.tasks ≡ some task
      → start s a report ≡ (
        record s { tasks = Assoc.put a.id (record task { report = report }) s.tasks },
        report_task (record task { report = report }),
        false,
      )
  unfolding start
  start_of_present task e = rw (e, start) refl

  start_of_absent :
      Assoc.get a.id s.tasks ≡ none
      → ((start s a report).0 ≡ record s { tasks = Assoc.put a.id (new_task report) s.tasks })
        × ((start s a report).1 ≡ report_task (new_task report))
  unfolding start
  start_of_absent e = (rw (e, start) refl, rw (e, start) refl)

-- A `Start` of a task that is held as this reporter's changes nothing.
start_held :
    (s : SimExecutor) (a : Assignment) (report : Reporter) (task : SimTask) (m : Assoc SimTask)
    → s ≡ record { tasks = Assoc.put a.id (record task { report = report }) m }
    → start s a report ≡ (s, report_task (record task { report = report }), false)
start_held s a report task m e =
    let t = record task { report = report } in
    let g : Assoc.get a.id s.tasks ≡ some t =
      ap (λ (x : SimExecutor). Assoc.get a.id x.tasks) e ∙ get-put_self a.id t m in
    let same : record s { tasks = Assoc.put a.id t s.tasks } ≡ s =
      ap (λ (x : SimExecutor). record x { tasks = Assoc.put a.id t x.tasks }) e
      ∙ (ap (λ x. record s { tasks = x }) (put_again a.id t t m) ∙ sym e) in
    start_of_present s a report t g ∙ ap (λ x. (x, report_task t, false)) same

-- A second start of an assignment in the simulated runtime by the same reporter changes nothing
-- and starts no other run of the job; it repeats the report of the first.
pub start_again :
    (s : SimExecutor) (a : Assignment) (report : Reporter)
    → start (start s a report).0 a report ≡ ((start s a report).0, (start s a report).1, false)
unfolding new_task
start_again s a report = elim (Option-cases (Assoc.get a.id s.tasks)) [
  | inl e ↦
      let (made, reported) = start_of_absent s a report e in
      start_held (start s a report).0 a report (new_task report) s.tasks made
      ∙ ap (λ x. ((start s a report).0, x, false)) (sym reported)
  | inr (task, e) ↦
      let q = start_of_present s a report task e in
      start_held (start s a report).0 a report task s.tasks (ap (λ x. x.0) q)
      ∙ ap (λ x. ((start s a report).0, x, false)) (sym (ap (λ x. x.1) q))
]

-- `List` names exactly the tasks that are held.
In-keys_of : (id : String) (m : Assoc SimTask) → In id (keys_of m) ↔ (Assoc.has id m ≡ true)
unfolding keys_of Assoc.has Assoc.get
In-keys_of id [] = (λ i. absurd i, λ e. cc)
In-keys_of id ((k, t) ∷ m) = elim (Bool-cases (k == id)) [
  | inl e ↦ (λ _. ground (arith, e), λ _. inl (sym ((eq_iff k id).0 e)))
  | inr e ↦ (
    λ i. elim i [
      | inl same ↦ ground (arith, e, same, eq_iff k id)
      | inr i' ↦ let h = (In-keys_of id m).0 i' in ground (arith, e, h)
    ],
    λ h. inr ((In-keys_of id m).1 (ground (arith, e, h))),
  )
]

pub In-list_tasks :
    (s : SimExecutor) (id : String) → In id (list_tasks s) ↔ (Assoc.has id s.tasks ≡ true)
unfolding list_tasks
In-list_tasks s id = (
  λ i. (In-keys_of id s.tasks).0 ((In-sort_by str_ltb id (keys_of s.tasks)).0 i),
  λ h. (In-sort_by str_ltb id (keys_of s.tasks)).1 ((In-keys_of id s.tasks).1 h),
)

pub has-start :
    (s : SimExecutor) (a : Assignment) (report : Reporter) (j : String)
    → Assoc.has j (start s a report).0.tasks ≡ (a.id == j || Assoc.has j s.tasks)
unfolding start
has-start s a report j = elim (Option-cases (Assoc.get a.id s.tasks)) [
  | inl e ↦ rw (e, start) (has-put a.id j _ s.tasks)
  | inr (task, e) ↦ rw (e, start) (has-put a.id j _ s.tasks)
]

pub has-stop :
    (s : SimExecutor) (id j : String)
    → Assoc.has j (stop s id).0.tasks ≡ (if id == j then false else Assoc.has j s.tasks)
unfolding stop Assoc.has
has-stop s id j = elim (Option-cases (Assoc.get id s.tasks)) [
  | inl e ↦ rw (e, stop) (ground (arith, e, eq_iff id j))
  | inr (task, e) ↦ rw (e, stop) (ground (arith, get-remove id j s.tasks))
]
