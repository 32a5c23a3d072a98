-- ===== src/RwLock.antt =====
-- src/com/lib/rwlock.c: the lock for many readers or one writer. Each function holds `lock` all the
-- way, but where it waits: a definition here is the code from the acquisition of that spinlock, or
-- from the return of the wait, to its release or to the next wait.
pub mod System
pub mod Invariant
pub mod Safety
mod Tests
use salern_os_kernel.Prelude.{
  ℕ, Bool, true, false, ◌||◌, ◌&&◌, List, [], ◌∷◌, ltb, ◌==◌, if◌then◌else◌,
}
use salern_os_kernel.Prelude.Word.{add64, sub64}
use salern_os_kernel.Waitlist.{
  sched_waitlist_insert, com_sys_sched_notify, com_sys_sched_notify_all,
}

pub record RwLock : Type 0 where
  pub active_readers : ℕ
  pub waiting_writers : ℕ
  pub writer_active : Bool
  pub readers_waitlist : List ℕ
  pub writers_waitlist : List ℕ

-- `KRWLOCK_INIT`
abbrev pub init : RwLock
init = record {
  active_readers = 0;
  waiting_writers = 0;
  writer_active = false;
  readers_waitlist = [];
  writers_waitlist = [];
}

-- `true`: the thread has the lock; `false`: it waits. A thread that comes back from the wait does
-- the same again.
unfoldable pub krwlock_acquire_read : (thread : ℕ) → RwLock → Bool × RwLock
krwlock_acquire_read thread l =
    if l.writer_active || ltb 0 l.waiting_writers
    then (false, record l { readers_waitlist = sched_waitlist_insert l.readers_waitlist thread })
    else (true, record l { active_readers = add64 l.active_readers 1 })

-- The lock, and the writers made ready.
unfoldable pub krwlock_release_read : RwLock → RwLock × List ℕ
unfolding com_sys_sched_notify
krwlock_release_read l =
    let readers = sub64 l.active_readers 1 in
    let (queue, ready) = com_sys_sched_notify l.writers_waitlist in
    if readers == 0 && ltb 0 l.waiting_writers
    then (record l { active_readers = readers; writers_waitlist = queue }, ready)
    else (record l { active_readers = readers }, [])

-- The loop of `krwlock_acquire_write` and what follows it.
unfoldable pub write_test : (thread : ℕ) → RwLock → Bool × RwLock
write_test thread l =
    if l.writer_active || ltb 0 l.active_readers
    then (false, record l { writers_waitlist = sched_waitlist_insert l.writers_waitlist thread })
    else (true, record l { waiting_writers = sub64 l.waiting_writers 1; writer_active = true })

unfoldable pub krwlock_acquire_write : (thread : ℕ) → RwLock → Bool × RwLock
unfolding write_test
krwlock_acquire_write thread l =
    write_test thread (record l { waiting_writers = add64 l.waiting_writers 1 })

-- The lock, the readers and the writers made ready.
unfoldable pub krwlock_release_write : RwLock → RwLock × List ℕ × List ℕ
unfolding com_sys_sched_notify
krwlock_release_write l =
    let (readers_queue, readers) = com_sys_sched_notify_all l.readers_waitlist in
    let (writers_queue, writers) = com_sys_sched_notify l.writers_waitlist in
    if l.waiting_writers == 0
    then (record l { writer_active = false; readers_waitlist = readers_queue }, readers, [])
    else (record l { writer_active = false; writers_waitlist = writers_queue }, [], writers)
