-- ===== src/Tests/Threads.antt =====
-- Two threads on one buffer: the first writes while the second reads.
use libshmipc.Base.{
  zero, suc, suc, length, ◌++◌, ℕ, ◌≡◌, ◌≢◌, ◌⊎◌, refl, some, List, [], ◌∷◌, arith, ℕ_discrete,
}
use libshmipc.Common.{ok, placeholder}
use libshmipc.Buffer.State.{Shm, unlock, lock, is_locked, read_head, check_entry_header}
use libshmipc.Buffer.Layout.{Holds}
use libshmipc.Buffer.Create.Outcome.{initialised-IsValid}
use libshmipc.Memory.{load_u64, from_bytes, load_bytes, store_u64, store_bytes, to_bytes}
use libshmipc.Buffer.Threads.Safety.{
  History, threads_refine, quiescent-Holds, head_lock, locks_exclude, never_illegal_state,
  entries_readable,
}
use libshmipc.Utils.{align_up, relative}
use libshmipc.Buffer.Threads.Point.{Pc, reading, idle, failed, Event}
use libshmipc.Buffer.Threads.Reading.{
  header_at, begin_read, load_head, lock_head, found_entry, copy, advance,
}
use libshmipc.Buffer.Threads.System.{update, writes, reads, System, pick, Reach, start, later}
use libshmipc.Buffer.Threads.Writing.{
  full_entry_size, reservation_at, begin_write, load_tail, has_space, lock_tail, fill,
  commit_message,
}
use libshmipc.Buffer.Write.{fill_entry}
use libshmipc.Buffer.Threads.Alone.{Alone}
use libshmipc.Buffer.Threads.Alone.Progress.{alone_ends}
use libshmipc.Tests.States.{raw, fresh, hello}

abbrev s0 : System
s0 = record { shm = fresh; pc = λ i. idle; trace = [] }

r0 : Reach 7 fresh s0
r0 = start

abbrev then : System → ℕ → Event → Shm → Pc → System
then sys i e s p = record { shm = s; pc = update sys.pc i p; trace = sys.trace ++ (e ∷ []) }

abbrev s1 : System
s1 = then s0 0 Event.quiet fresh (Pc.w_tail hello)

r1 : Reach 7 fresh s1
unfolding align_up
r1 = later r0 (omega arith) (pick 0 (writes (begin_write (omega arith) (omega arith) refl)))

abbrev s2 : System
s2 = then s1 0 Event.quiet fresh (Pc.w_head hello 0)

r2 : Reach 7 fresh s2
unfolding is_locked lock ℕ_discrete
r2 = later r1 (omega arith) (pick 0 (writes (load_tail refl)))

abbrev s3 : System
s3 = then s2 0 Event.quiet fresh (Pc.w_lock hello 0)

r3 : Reach 7 fresh s3
unfolding align_up unlock read_head ℕ_discrete
r3 = later r2 (omega arith) (pick 0 (writes (has_space refl)))

-- The first thread has locked the tail, the second one the head.
abbrev s4 : System
s4 = then s3 0 Event.quiet (record fresh { tail = lock 0 }) (Pc.w_fill hello 0)

r4 : Reach 7 fresh s4
unfolding unlock ℕ_discrete
r4 = later r3 (omega arith) (pick 0 (writes (lock_tail refl)))

abbrev s5 : System
s5 = then s4 1 Event.quiet s4.shm (Pc.r_head (reading 8))

r5 : Reach 7 fresh s5
unfolding lock ℕ_discrete
r5 = later r4 (omega arith) (pick 1 (reads (begin_read tt)))

abbrev s6 : System
s6 = then s5 1 Event.quiet s5.shm (Pc.r_lock (reading 8) 0)

r6 : Reach 7 fresh s6
unfolding lock is_locked ℕ_discrete
r6 = later r5 (omega arith) (pick 1 (reads (load_head refl tt)))

abbrev s7 : System
s7 = then s6 1 Event.quiet (record s6.shm { head = lock 0 }) (Pc.r_tail (reading 8) 0)

r7 : Reach 7 fresh s7
unfolding lock unlock ℕ_discrete
r7 = later r6 (omega arith) (pick 1 (reads (lock_head refl)))

-- The first thread has stored the entry and committed it.
abbrev s8 : System
s8 =
    then s7 0 Event.quiet
      (record s7.shm {
        region =
            fill_entry (reservation_at s7.shm.data_size hello 0) (full_entry_size hello)
              (length hello) hello s7.shm.region;
      })
      (Pc.w_commit hello 0)

r8 : Reach 7 fresh s8
unfolding lock ℕ_discrete
r8 = later r7 (omega arith) (pick 0 (writes fill))

abbrev s9 : System
s9 = then s8 0 (Event.sends hello) (record s8.shm { tail = 32 }) idle

r9 : Reach 7 fresh s9
unfolding lock align_up relative fill_entry load_u64 from_bytes load_bytes store_u64 store_bytes
    to_bytes ℕ_discrete
r9 = later r8 (omega arith) (pick 0 (writes (commit_message refl refl)))

-- The second thread finds the entry, copies it, and moves the head.
abbrev s10 : System
s10 = then s9 1 Event.quiet s9.shm (Pc.r_entry (reading 8) 0)

r10 : Reach 7 fresh s10
unfolding lock unlock is_locked ℕ_discrete
r10 = later r9 (omega arith) (pick 1 (reads (found_entry (omega arith) refl)))

abbrev s11 : System
s11 = then s10 1 Event.quiet s10.shm (Pc.r_take 0 32 (some hello))

r11 : Reach 7 fresh s11
unfolding lock unlock relative fill_entry align_up check_entry_header load_u64 from_bytes load_bytes
    store_u64 store_bytes to_bytes ℕ_discrete
r11 = later r10 (omega arith) (pick 1 (reads (copy refl refl)))

abbrev s12 : System
s12 = then s11 1 (Event.takes (some hello)) (record s11.shm { head = 32 }) idle

r12 : Reach 7 fresh s12
unfolding lock ℕ_discrete
r12 = later r11 (omega arith) (pick 1 (reads (advance refl)))

all_idle : (i : ℕ) → s12.pc i ≡ idle
unfolding ℕ_discrete
all_idle zero = refl
all_idle (suc zero) = refl
all_idle (suc (suc i)) = ground arith

threads_refine_example : (q : List (List ℕ)) × History [] s12.trace q
threads_refine_example = threads_refine (initialised-IsValid 7 raw (omega arith)) r12

quiescent-Holds_example : (q : List (List ℕ)) × History [] s12.trace q × Holds 7 q s12.shm
quiescent-Holds_example = quiescent-Holds (initialised-IsValid 7 raw (omega arith)) r12 all_idle

locks_exclude_example : ◌≡◌ {A = ℕ} 1 1
unfolding ℕ_discrete
locks_exclude_example =
    locks_exclude head_lock (initialised-IsValid 7 raw (omega arith)) r8 refl refl

never_illegal_state_example : s8.pc 0 ≢ failed
never_illegal_state_example = never_illegal_state (initialised-IsValid 7 raw (omega arith)) r8 0

entries_readable_example :
    ((header_at s10.shm 0).1.seq ≡ 0)
    × (((header_at s10.shm 0).0 ≡ ok) ⊎ ((header_at s10.shm 0).0 ≡ placeholder))
unfolding ℕ_discrete
entries_readable_example =
    entries_readable (initialised-IsValid 7 raw (omega arith)) r10 1 0 (reading 8) refl

alone_ends_example : (s' : Shm) × Alone s8.shm (s8.pc 0) s' idle
unfolding lock
alone_ends_example = alone_ends (initialised-IsValid 7 raw (omega arith)) r8 (omega arith) 0
