-- ===== src/System/Tasks.antt =====
-- The states of tasks in the table, and the requests of the disk's queue.
use low_flex_programming.Base.{
  ℕ, ◌≡◌, ◌≢◌, ap, ◌∙◌, sym, List, [], ◌∷◌, ◌++◌, Option, none, some, get_elem?, get_elem?-bound,
  set, get_elem?-set_ne, get_elem?-set_self,
}
use low_flex_programming.Sched.{Task, TaskState, not_allocated, disk_read}
use low_flex_programming.Ata.{Request}

-- Slot `i` holds a task in this state.
abbrev pub InState : List Task → ℕ → TaskState → Type 0
InState tasks i state = (task : Task) × (get_elem? tasks i ≡ some task) × (task.state ≡ state)

-- No request of the queue is that of task `i`.
abbrev pub Fresh : ℕ → List Request → Type 0
Fresh i [] = Unit
Fresh i (req ∷ queue) = (req.task ≢ i) × Fresh i queue

-- The queue's requests are those of different tasks, each of which waits for the disk.
abbrev pub Waiting : List Task → List Request → Type 0
Waiting tasks [] = Unit
Waiting tasks (req ∷ queue) =
    InState tasks req.task disk_read × Fresh req.task queue × Waiting tasks queue

-- A table in which the tasks that wait for the disk are as they were.
abbrev pub KeepsWaiting : List Task → List Task → Type 0
KeepsWaiting tasks tasks' = (i : ℕ) → InState tasks i disk_read → InState tasks' i disk_read

pub Waiting-mono :
    (tasks tasks' : List Task) (queue : List Request)
    → KeepsWaiting tasks tasks'
    → Waiting tasks queue
    → Waiting tasks' queue
Waiting-mono tasks tasks' [] keep h = tt
Waiting-mono tasks tasks' (req ∷ queue) keep h =
    (keep req.task h.0, h.1, Waiting-mono tasks tasks' queue keep h.2)

-- A change of a slot that has no request.
pub Waiting-set :
    (tasks : List Task) (i : ℕ) (t : Task) (queue : List Request)
    → Fresh i queue
    → Waiting tasks queue
    → Waiting (set tasks i t) queue
Waiting-set tasks i t [] f h = tt
Waiting-set tasks i t (req ∷ queue) f h =
    let (task, at, state) = h.0 in
    (
      (task, get_elem?-set_ne tasks i req.task t (λ e. f.0 (sym e)) ∙ at, state),
      h.1,
      Waiting-set tasks i t queue f.1 h.2,
    )

abbrev pub state_of : Option Task → TaskState
state_of none = not_allocated
state_of (some t) = t.state

-- A task in another state has no request.
pub Waiting-Fresh :
    (tasks : List Task) (i : ℕ) (t : Task) (queue : List Request)
    → get_elem? tasks i ≡ some t
    → t.state ≢ disk_read
    → Waiting tasks queue
    → Fresh i queue
Waiting-Fresh tasks i t [] at other h = tt
Waiting-Fresh tasks i t (req ∷ queue) at other h =
    let (task, there, state) = h.0 in
    (
      λ e. other (ap state_of (sym at ∙ ap (get_elem? tasks) (sym e) ∙ there) ∙ state),
      Waiting-Fresh tasks i t queue at other h.2,
    )

-- A new request at the end of the queue.
pub Fresh-append :
    (i : ℕ) (queue : List Request) (req : Request)
    → Fresh i queue
    → req.task ≢ i
    → Fresh i (queue ++ req ∷ [])
Fresh-append i [] req f ne = (ne, tt)
Fresh-append i (first ∷ queue) req f ne = (f.0, Fresh-append i queue req f.1 ne)

pub Waiting-append :
    (tasks : List Task) (queue : List Request) (req : Request)
    → InState tasks req.task disk_read
    → Fresh req.task queue
    → Waiting tasks queue
    → Waiting tasks (queue ++ req ∷ [])
Waiting-append tasks [] req wait f h = (wait, tt, tt)
Waiting-append tasks (first ∷ queue) req wait f h = (
  h.0,
  Fresh-append first.task queue req h.1 (λ e. f.0 (sym e)),
  Waiting-append tasks queue req wait f.1 h.2,
)

-- The slot that is set.
pub InState-set :
    (tasks : List Task) (i : ℕ) (t u : Task) (state : TaskState)
    → get_elem? tasks i ≡ some t
    → u.state ≡ state
    → InState (set tasks i u) i state
InState-set tasks i t u state at e =
    (u, get_elem?-set_self tasks i u (get_elem?-bound tasks i t at), e)
