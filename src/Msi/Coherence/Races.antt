-- ===== src/Msi/Coherence/Races.antt =====
-- Commands of Project_3_new/part4/part4.c that cross: typed at both machines before either message is
-- handled.
use lkp.Msi.Coherence.Writes.{writer}
use lkp.Msi.Coherence.Rounds.{page-fits, asks}
use lkp.Msi.Server.{handle}
use lkp.Msi.Client.{fetch, signal_write, request, write_page, read_page}
use lkp.Msi.Coherence.Defs.{both_shared, nobody, PageIs, Sized}
use lkp.Msi.Data.{invalid, set_msi, shared, Machine}
use lkp.Prelude.{arith, ◌≡◌, length, List, ◌<◌, ℕ, [], refl, none, some}
use lkp.Msi.Race.{
  deadlock_final, Step, unanswered, IsDeadlock, quiet, Half, Reach, here, then_, ask, tell, hear,
  other,
}

module _ {n s : ℕ} {a b : Machine} (z : Sized n s a b) (p : ℕ) (h : p < n) where
  crossed_reads-IsDeadlock :
      PageIs nobody a b p → (x y : Half) × Reach (quiet a) (quiet b) x y × IsDeadlock x y
  unfolding read_page request
  crossed_reads-IsDeadlock k = (
    record { machine = heard_a.0; inbox = []; awaited = some p; replies = [] },
    record { machine = heard_b.0; inbox = []; awaited = some p; replies = [] },
    then_
        (then_
          (then_ (then_ here (ask p (asks p a) refl asked_a))
            (other (ask p (asks p b) refl asked_b)))
          (hear (asks p b).temp_data [] heard_a.0 refl heard_a.1))
        (other (hear (asks p a).temp_data [] heard_b.0 refl heard_b.1)),
    ground arith,
  )
    where
      asked_a : read_page p a ≡ some (asks p a, fetch)
      asked_a = ground (arith, page-fits p n s h)

      asked_b : read_page p b ≡ some (asks p b, fetch)
      asked_b = ground (arith, page-fits p n s h)

      heard_a : (m : Machine) × (handle (asks p b).temp_data (asks p a) ≡ some (m, none))
      heard_a =
          unanswered (asks p b).temp_data (asks p a) p refl (omega (arith, z.few)) (ground arith)
            (ground arith) (ground arith) (ground (arith, z.self_whole, z.peer_whole))

      heard_b : (m : Machine) × (handle (asks p a).temp_data (asks p b) ≡ some (m, none))
      heard_b =
          unanswered (asks p a).temp_data (asks p b) p refl (omega (arith, z.few)) (ground arith)
            (ground arith) (ground arith) (ground (arith, z.self_whole, z.peer_whole))

  -- When both machines read a page that nobody has before either request is handled, and each read
  -- of a proc_info takes the whole struct, there is a run to a state where both menus wait and
  -- nothing is on its way, and from which no thread of either machine can take a step.
  pub crossed_reads :
      PageIs nobody a b p
      → (x y : Half) × Reach (quiet a) (quiet b) x y
        × IsDeadlock x y
        × ((x' y' : Half) → ¬ Step x y x' y')
  crossed_reads k =
      let (x, y, run, stuck) = crossed_reads-IsDeadlock k in
      (x, y, run, stuck, λ x' y'. deadlock_final stuck)

  -- When both machines write texts shorter than a page to a page that they share before either
  -- message is handled, and each read of a proc_info takes the whole struct, there is a run after
  -- which the page is invalid on both.
  pub crossed_writes :
      (message message' : List ℕ)
      → length message < s
      → length message' < s
      → PageIs both_shared a b p
      → (x y : Half) × Reach (quiet a) (quiet b) x y
        × (x.inbox ≡ [])
        × (y.inbox ≡ [])
        × PageIs nobody x.machine y.machine p
  unfolding write_page signal_write handle
  crossed_writes message message' fits fits' k = (
    quiet a2,
    quiet b2,
    then_
        (then_
          (then_ (then_ here (tell p message a1 refl told_a))
            (other (tell p message' b1 refl told_b)))
          (hear b1.temp_data [] a2 refl heard_a))
        (other (hear a1.temp_data [] b2 refl heard_b)),
    refl,
    refl,
    ground arith,
  )
    where
      a1 : Machine
      a1 = writer p message shared a

      b1 : Machine
      b1 = writer p message' shared b

      a2 : Machine
      a2 = set_msi p invalid (record a1 { temp_data = b1.temp_data })

      b2 : Machine
      b2 = set_msi p invalid (record b1 { temp_data = a1.temp_data })

      told_a : write_page p message a ≡ some a1
      told_a = ground (arith, page-fits p n s h)

      told_b : write_page p message' b ≡ some b1
      told_b = ground (arith, page-fits p n s h)

      heard_a : handle b1.temp_data a1 ≡ some (a2, none)
      heard_a = ground arith

      heard_b : handle a1.temp_data b1 ≡ some (b2, none)
      heard_b = ground arith
