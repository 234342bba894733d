-- ===== src/Ata/Transfer.antt =====
-- A transfer: one interrupt of the disk for each sector of the request.
use low_flex_programming.Base.{
  ℕ, ◌+◌, ◌-◌, ◌*◌, ◌^◌, ◌<◌, ◌≡◌, refl, ap, ◌∙◌, List, [], ◌∷◌, length, true, false, ◌==◌, ltb,
  leb, ◌&&◌, if◌then◌else◌, some, get_elem?, set, Run, ok, ◌>>=◌, arith, add32, sub32, ne→==, eq→==,
}
use low_flex_programming.Common.{Memory}
use low_flex_programming.Sched.{Task, running}
use low_flex_programming.Ata.{
  Request, Disk, issue_writes, ata_issue_read_sectors, set_state, read_words, read_sector,
  finish_request, process_head, ata_process_request,
}

-- The interrupts of a transfer, with the sector that the device has ready at each.
pub process_all : List (ℕ → ℕ) → Disk → Run Disk
process_all [] d = ok d
process_all (words ∷ sectors) d = do d' ← ata_process_request words d; process_all sectors d'

-- The sectors, one behind the other, from `buf` on.
abbrev pub stored : List (ℕ → ℕ) → ℕ → Memory → Memory
stored [] buf m = m
stored (words ∷ sectors) buf m = stored sectors (buf + 512) (read_words 256 0 words buf m)

-- The next request may be given to the device.
abbrev pub NextIsSmall : List Request → Type 0
NextIsSmall [] = Unit
NextIsSmall (next ∷ rest) = next.sectors_count < 256

-- The state behind the transfer: the sectors are in the buffer, the task that waited is runnable,
-- the request has left the queue, and the device has got the command of the next one.
abbrev pub completed : List (ℕ → ℕ) → Request → List Request → Task → Disk → Disk
completed sectors req rest task d =
    let d' : Disk = record d {
      memory = stored sectors req.buf d.memory;
      req_queue = rest;
      sched = record d.sched {
        tasks = set d.sched.tasks req.task (record task { state = running });
      };
    } in
    elim rest [ [] ↦ d' | next ∷ _ ↦ issue_writes next d' ]

finish_lem :
    (req : Request) (rest : List Request) (task : Task) (d : Disk)
    → NextIsSmall rest
    → get_elem? d.sched.tasks req.task ≡ some task
    → finish_request req rest d ≡ ok (completed [] req rest task d)
unfolding finish_request set_state ata_issue_read_sectors
finish_lem req [] task d small here = rw here refl
finish_lem req (next ∷ rest) task d small here =
    let passes : (leb 256 next.sectors_count && ltb next.sectors_count (2 ^ 31)) ≡ false =
      ground arith in
    rw (here, passes) refl

-- The request with one sector less to read.
abbrev advanced : Request → Request
advanced req = record req { buf = req.buf + 512; sectors_count = req.sectors_count - 1 }

-- The state in which the sector has been read.
abbrev filled : (ℕ → ℕ) → Request → List Request → Disk → Disk
filled words req rest d = record d {
  memory = read_words 256 0 words req.buf d.memory;
  req_queue = advanced req ∷ rest;
}

take_head :
    (words : ℕ → ℕ) (req : Request) (rest : List Request) (d : Disk)
    → d.req_queue ≡ req ∷ rest
    → ata_process_request words d ≡ process_head words req rest d
unfolding ata_process_request
take_head words req rest d e =
    ap (λ q. elim q [ [] ↦ Run.panic | r ∷ rs ↦ process_head words r rs d ]) e

process_head_lem :
    (words : ℕ → ℕ) (req : Request) (rest : List Request) (d : Disk)
    → 0 < req.sectors_count
    → req.sectors_count < 256
    → 0 < req.buf
    → req.buf + 512 * req.sectors_count < 2 ^ 32
    → process_head words req rest d ≡ (
        if req.sectors_count - 1 == 0
        then finish_request (advanced req) rest (filled words req rest d)
        else ok (filled words req rest d))
unfolding process_head read_sector
process_head_lem words req rest d pos few buf room =
    let b : (req.buf == 0) ≡ false = ne→== req.buf 0 (λ e. absurd (omega arith)) in
    let c : (req.sectors_count == 0) ≡ false =
      ne→== req.sectors_count 0 (λ e. absurd (omega arith)) in
    let next : add32 req.buf 512 ≡ req.buf + 512 = omega arith in
    let less : sub32 req.sectors_count 1 ≡ req.sectors_count - 1 = omega arith in
    rw (b, c, next, less) refl

-- For a request of `n` sectors, from 1 to 255, at a buffer that does not wrap around, from a task of
-- the table, with no request of 256 sectors or more next in the queue: exactly `n` interrupts complete
-- it, whatever the device delivers.
pub process_all-completed :
    (sectors : List (ℕ → ℕ)) (req : Request) (rest : List Request) (task : Task) (d : Disk)
    → d.req_queue ≡ req ∷ rest
    → length sectors ≡ req.sectors_count
    → 0 < req.sectors_count
    → req.sectors_count < 256
    → 0 < req.buf
    → req.buf + 512 * req.sectors_count < 2 ^ 32
    → NextIsSmall rest
    → get_elem? d.sched.tasks req.task ≡ some task
    → process_all sectors d ≡ ok (completed sectors req rest task d)
unfolding process_all
process_all-completed [] req rest task d queue count pos few buf room small here =
    absurd (omega arith)
process_all-completed (words ∷ []) req rest task d queue count pos few buf room small here =
    let last : (req.sectors_count - 1 == 0) ≡ true =
      eq→== (req.sectors_count - 1) 0 (omega arith) in
    let step : ata_process_request words d ≡ ok (completed (words ∷ []) req rest task d) =
      take_head words req rest d queue
      ∙ process_head_lem words req rest d pos few buf room
      ∙ ap
          (λ b.
            if b
            then finish_request (advanced req) rest (filled words req rest d)
            else ok (filled words req rest d))
          last
      ∙ finish_lem (advanced req) rest task (filled words req rest d) small here in
    ap (λ r. r >>= process_all []) step
process_all-completed (words ∷ w ∷ sectors) req rest task d queue count pos few buf room small
      here =
    let more : (req.sectors_count - 1 == 0) ≡ false =
      ne→== (req.sectors_count - 1) 0 (λ e. absurd (omega arith)) in
    let step : ata_process_request words d ≡ ok (filled words req rest d) =
      take_head words req rest d queue
      ∙ process_head_lem words req rest d pos few buf room
      ∙ ap
          (λ b.
            if b
            then finish_request (advanced req) rest (filled words req rest d)
            else ok (filled words req rest d))
          more in
    ap (λ r. r >>= process_all (w ∷ sectors)) step
    ∙ process_all-completed (w ∷ sectors) (advanced req) rest task (filled words req rest d) refl
        (omega arith) (omega arith) (omega arith) (omega arith) (omega arith) small here
