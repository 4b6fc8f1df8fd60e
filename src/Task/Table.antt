-- ===== src/Task/Table.antt =====
-- Reading a slot of the task table after a write.
use tinyrtos.Prelude.{
  ℕ, ◌<◌, ◌≡◌, refl, ap, List, length, set-set, set-get_or, get_or-set, length-set, if◌then◌else◌,
  ◌==◌,
}
use tinyrtos.Task.{Task, TaskTable, zero_task, slot, set_slot}

pub slot-set_slot :
    (t : TaskTable) (i j : ℕ) (task : Task)
    → i < length t.tasks
    → slot (set_slot t i task) j ≡ (if i == j then task else slot t j)
unfolding slot set_slot
slot-set_slot t i j task lt = get_or-set t.tasks i j task zero_task lt

pub length-set_slot :
    (t : TaskTable) (i : ℕ) (task : Task) → length (set_slot t i task).tasks ≡ length t.tasks
unfolding set_slot
length-set_slot t i task = length-set t.tasks i task

pub count-set_slot : (t : TaskTable) (i : ℕ) (task : Task) → (set_slot t i task).count ≡ t.count
unfolding set_slot
count-set_slot t i task = refl

pub current-set_slot :
    (t : TaskTable) (i : ℕ) (task : Task) → (set_slot t i task).current ≡ t.current
unfolding set_slot
current-set_slot t i task = refl

pub idle_ready-set_slot :
    (t : TaskTable) (i : ℕ) (task : Task) → (set_slot t i task).idle_ready ≡ t.idle_ready
unfolding set_slot
idle_ready-set_slot t i task = refl

pub set_slot-set_slot :
    (t : TaskTable) (i : ℕ) (a b : Task) → set_slot (set_slot t i a) i b ≡ set_slot t i b
unfolding set_slot
set_slot-set_slot t i a b = rw (set-set {0} t.tasks i a b)

pub set_slot-slot : (t : TaskTable) (i : ℕ) → i < length t.tasks → set_slot t i (slot t i) ≡ t
unfolding set_slot slot
set_slot-slot t i lt =
    ap (λ (l : List Task). record t { tasks = l }) (set-get_or t.tasks i zero_task lt)
