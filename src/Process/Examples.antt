-- ===== src/Process/Examples.antt =====
-- The break and the end of a process at concrete inputs.
use fat.Prelude.{ap, ◌∙◌, ◌≡◌, some, true, false, [], ◌∷◌, ◌==◌, if◌then◌else◌, arith, refl}
use fat.Sched.{State, running, receiving, Proc}
use fat.Page.{Memory}
use fat.Page.Tree.{find, page-path_of}
use fat.Process.Copy.{Mm, copy_mm}
use fat.Process.Ranges.{AreRanges}
use fat.Process.Fork.{ranges_of, Child, copy_mm-Child}
use fat.Page.Sample.{
  nth_page, empty_tables, only_root, empty_tables-Placed, mapped_tables, mapped_tables-IsTree,
  mapped_tables_found,
}
use fat.Process.{System, ipc_signal, exit_end, reap, wait_signal}
use fat.Process.Brk.{Extended, do_brk, page_upper_align, do_brk-Extended}

do_brk-Extended_example :
    (m' : Memory) × (do_brk 0x400456 (nth_page 1) 0x400000 empty_tables
      ≡ some (true, page_upper_align 0x400456, m'))
    × Extended (nth_page 1) 0x400000 (page_upper_align 0x400456) empty_tables m'
unfolding page_upper_align
do_brk-Extended_example =
    do_brk-Extended 0x400456 (nth_page 1) 0x400000 empty_tables (only_root, empty_tables-Placed)
      refl (omega arith) (omega arith) (omega arith) (omega arith)

abbrev a_process : State → Proc
a_process state = record {
  state = state;
  is_idle = false;
  need_schedule = false;
  counter = 1;
  alarm = 0;
  wait = ipc_signal;
  wait_proc = [];
  has_intr = false;
  msg = record { src = 0; type = 0; body = 0 };
}

-- Process 130 runs, and its parent 129 waits for it.
abbrev family : System
family = record {
  kernel = record {
    procs = λ p. a_process (if p == 130 then running else receiving);
    proc_head = 129 ∷ 130 ∷ [];
    hash_map = λ i. [];
    current = 130;
  };
  signal = λ p. 0;
  exit_status = λ p. 0;
  parent = λ p. 129;
  children = λ p. if p == 129 then 130 ∷ 131 ∷ [] else [];
  pgd = λ p. 0;
  memory = empty_tables;
  freed = [];
  reaped = [];
}

-- The parent, when it runs again.
abbrev parent_again : System
parent_again =
    let s = exit_end 0 7 family in record s { kernel = record s.kernel { current = 129 } }

-- The parent after its wait, and when it runs again while it waits a second time.
abbrev waited_once : System
waited_once =
    reap 130 (record parent_again { signal = λ q. if q == 129 then 0 else parent_again.signal q })

abbrev woken_parent : System
woken_parent =
    let s = wait_signal 0 waited_once in record s { kernel = record s.kernel { current = 129 } }

-- A process with one page of code, an empty stack and an empty heap.
abbrev one_page : Mm
one_page = record {
  pgd = nth_page 1;
  psegs = (0x400000, 0x400123) ∷ [];
  start_brk = 0x700000;
  brk = 0x700000;
  start_stack = 0x800000;
  end_stack = 0x800000;
}

one_page-AreRanges : AreRanges (nth_page 1) (ranges_of one_page) mapped_tables
unfolding page_upper_align
one_page-AreRanges = (
  refl,
  refl,
  omega arith,
  omega arith,
  (λ v a b. (
    nth_page 5,
    ap (λ x. find mapped_tables x (nth_page 1)) (page-path_of v 0x400456 (omega (arith, a, b)))
        ∙ mapped_tables_found,
  )),
  (
    refl,
    refl,
    omega arith,
    omega arith,
    (λ v a b. absurd (omega (arith, a, b))),
    (refl, refl, omega arith, omega arith, (λ v a b. absurd (omega (arith, a, b))), tt),
  ),
)

copy_mm-Child_example :
    (r : Mm × Memory) × (copy_mm one_page mapped_tables ≡ some r)
    × Child mapped_tables-IsTree.0 one_page mapped_tables r.0 r.1
unfolding page_upper_align
copy_mm-Child_example =
    copy_mm-Child mapped_tables-IsTree.0 one_page mapped_tables mapped_tables-IsTree.1
      one_page-AreRanges (omega arith)
