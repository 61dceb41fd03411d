-- ===== src/Tasks/Others.antt =====
-- The descriptor of one task as a whole, to state that an operation leaves it alone.
use hekaos_series.Base.{ℕ, ◌≡◌, ◌∙◌, ◌≢◌, Bool}
use hekaos_series.Tasks.{Ptr, Kernel, TaskState}

-- every field of one `struct task`
pub record Task : Type 0 where
  pub state : TaskState
  pub pid : ℕ
  pub parent : Ptr
  pub children : Ptr
  pub sibling : Ptr
  pub kstack : ℕ
  pub next : Ptr
  pub quantum : ℕ
  pub time_left : ℕ
  pub exit_code : ℕ
  pub uid : ℕ
  pub euid : ℕ
  pub pending : ℕ
  pub handlers : ℕ → ℕ
  pub is_userspace : Bool

abbrev pub task_of : Kernel → Ptr → Task
task_of k t = record {
  state = k.state t;
  pid = k.pid t;
  parent = k.parent t;
  children = k.children t;
  sibling = k.sibling t;
  kstack = k.kstack t;
  next = k.next t;
  quantum = k.quantum t;
  time_left = k.time_left t;
  exit_code = k.exit_code t;
  uid = k.uid t;
  euid = k.euid t;
  pending = k.pending t;
  handlers = k.handlers t;
  is_userspace = k.is_userspace t;
}

-- the globals of the task table, but for the record of handler calls
abbrev pub globals_of : Kernel → ℕ × Ptr × Ptr × Ptr × Ptr × Ptr
globals_of k =
    (k.task_counter, k.task_list_head, k.current_task, k.init_proc, k.init_task, k.kthreadd_task)

-- Every task but `a` is as before in all of its fields, and so are the globals.
pub record SameBut (a : Ptr) (k k' : Kernel) : Type 0 where
  pub others : (t : Ptr) → t ≢ a → task_of k' t ≡ task_of k t
  pub globals : globals_of k' ≡ globals_of k

pub SameBut-trans : (a : Ptr) (i j k : Kernel) → SameBut a i j → SameBut a j k → SameBut a i k
SameBut-trans a i j k p q = record {
  others = λ t ne. q.others t ne ∙ p.others t ne;
  globals = q.globals ∙ p.globals;
}
