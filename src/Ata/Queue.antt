-- ===== src/Ata/Queue.antt =====
-- `ata_read`: the queue of requests is served in the order of the calls.
use low_flex_programming.Base.{
  ℕ, ◌^◌, ◌<◌, ◌≡◌, refl, List, [], ◌∷◌, ◌++◌, false, ltb, leb, ◌&&◌, none, some, get_elem?, set,
  ok, arith,
}
use low_flex_programming.Sched.{Task, disk_read, reschedule}
use low_flex_programming.Ata.{
  Request, Disk, issue_writes, outb, ata_issue_read_sectors, set_state, enqueue, read_as, ata_read,
}

-- The state behind a call from the task `i`: the request is the last of the queue, the task waits
-- for the disk and is not current any more, and an idle device has got the command.
abbrev pub waiting_for : ℕ → Task → Request → Disk → Disk
waiting_for i task req d =
    let d' : Disk = record d {
      req_queue = d.req_queue ++ req ∷ [];
      sched = record d.sched {
        tasks = set d.sched.tasks i (record task { state = disk_read });
        current = none;
      };
    } in
    elim d.req_queue [ [] ↦ issue_writes req d' | _ ∷ _ ↦ d' ]

-- From a current task, for fewer than 256 sectors, `ata_read` returns 0 (once the task runs again),
-- with the request at the end of the queue and the task waiting for the disk, whether the device
-- was idle or not; a device that was idle, and no other, gets a command.
pub ata_read-waiting_for :
    (buf lba seccount i : ℕ) (task : Task) (d : Disk)
    → d.sched.current ≡ some i
    → get_elem? d.sched.tasks i ≡ some task
    → seccount < 256
    → ata_read buf lba seccount d
      ≡ ok (
        0,
        waiting_for i task (record { buf = buf; lba = lba; sectors_count = seccount; task = i }) d,
      )
unfolding ata_read read_as set_state enqueue reschedule ata_issue_read_sectors issue_writes outb
ata_read-waiting_for buf lba seccount i task d cur here few = go d.req_queue
  where
    passes : (leb 256 seccount && ltb seccount (2 ^ 31)) ≡ false
    passes = ground arith

    go :
        (queue : List Request)
        → ata_read buf lba seccount (record d { req_queue = queue })
          ≡ ok (
            0,
            waiting_for i task
                (record { buf = buf; lba = lba; sectors_count = seccount; task = i })
                (record d { req_queue = queue }),
          )
    go [] = rw (cur, here, passes, cur) refl
    go (first ∷ rest) = rw (cur, here, cur) refl
