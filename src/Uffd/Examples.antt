-- ===== src/Uffd/Examples.antt =====
-- The program of Project_3_new/part1/uffd.c over two pages.
use lkp.Prelude.Int.{pos}
use lkp.Uffd.Main.{Line, Calls}
use lkp.Uffd.Handler.{letter, Answer}
use lkp.Uffd.Reads.{reads, three_passes}
use lkp.Prelude.{[], ◌≡◌, some, ◌∷◌, refl, true, List, ℕ}

abbrev good_answer : Answer
good_answer = record { nready = pos 1; nread = pos 32; is_pagefault = true; copies = true }

abbrev calls : Calls
calls = record {
  page_size = 4096;
  userfaultfd = true;
  uffdio_api = true;
  mmap = λ len. some 8192;
  uffdio_register = λ start len. true;
  pthread_create = true;
  page = true;
}

-- The lines are those of a run.
chars : List Line → List ℕ
chars [] = []
chars (x ∷ r) = x.char ∷ chars r

chars_test :
    chars (three_passes 8192 2)
    ≡ b'A' ∷ b'A' ∷ b'B' ∷ b'B' ∷ b'A' ∷ b'A' ∷ b'B' ∷ b'B' ∷ b'A' ∷ b'A' ∷ b'A' ∷ b'A' ∷ b'B'
      ∷ b'B' ∷ b'B' ∷ b'B' ∷ []
unfolding chars three_passes reads letter
chars_test = refl
