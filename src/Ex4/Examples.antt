-- ===== src/Ex4/Examples.antt =====
-- A run of EX_4/ex4.c on a concrete allocator.
use lkp.Ex4.Init.Ends.{parse_until, crashed, expected, seen}
use lkp.Prelude.Int.{negsuc, pos}
use lkp.Proj2.Kernel.{Number}
use lkp.Ex4.Init.{cleanup, out, parse_tokens, parse_params, ex4_init}
use lkp.Prelude.{
  ◌-◌, ◌&&◌, refl, leb, if◌then◌else◌, ◌≤◌, [], ◌+◌, Option, some, ◌∷◌, ◌≡◌, arith, List, ℕ, true,
}
use lkp.Proj2.Store.{strsep}
use lkp.Ex4.Entries.Frees.{has, IsAllocator}
use lkp.Ex4.Init.Runs.{ex4_init-expected}
use lkp.Ex4.Entries.{
  cleaning_up, data_in_the_list, kfree, free_entry, destroy_linked_list_and_free, test_linked_list,
  store_value, fresh, Kernel,
}

abbrev sum : List ℕ → ℕ
sum [] = 0
sum (a ∷ h) = a + sum h

abbrev above : ℕ → List ℕ → Option ℕ
above n h = some (sum h + 24)

has-le-sum : (b : ℕ) (h : List ℕ) → has b h ≡ true → b ≤ sum h
has-le-sum b [] e = ground (arith, e)
has-le-sum b (c ∷ h) e = ground (arith, has-le-sum b h, e)

above-IsAllocator : IsAllocator above
above-IsAllocator = record { apart = λ n a b h e m. ground (arith, e, has-le-sum b h m) }

-- Reads one digit.
abbrev one_digit : List ℕ → Number
one_digit [] = record { err = negsuc 21; val = pos 0 }
one_digit (c ∷ r) =
    if leb b'0' c && leb c b'9'
    then record { err = pos 0; val = pos (c - b'0') }
    else record { err = negsuc 21; val = pos 0 }

abbrev kernel : Kernel
kernel = record { kmalloc = above; kstrdup = true; kstrtoint = one_digit; left = λ n. pos 0 }

abbrev two_numbers : List ℕ
two_numbers = b'4' ∷ b',' ∷ b',' ∷ b'7' ∷ []

two_numbers-parse_until :
    parse_until one_digit kernel.left 0 (strsep two_numbers)
    ≡ record { values = pos 4 ∷ pos 7 ∷ []; err = pos 0 }
unfolding parse_until strsep
two_numbers-parse_until = refl

ex4_init-expected_example :
    seen (ex4_init kernel (some two_numbers) fresh)
    ≡ expected (parse_until one_digit kernel.left 0 (strsep two_numbers))
ex4_init-expected_example =
    ex4_init-expected kernel above-IsAllocator (λ n h. (sum h + 24, refl)) two_numbers refl

-- Where the register holds 1 after the first number, the second is not stored.
abbrev left_one : Kernel
left_one = record kernel { left = λ n. pos 1 }

left_one_test : seen (ex4_init left_one (some two_numbers) fresh) ≡ crashed (cleaning_up ∷ [])
unfolding ex4_init parse_params parse_tokens strsep store_value out cleanup test_linked_list
    destroy_linked_list_and_free free_entry kfree
left_one_test = refl

-- A run, computed: it crashes in the cleanup.
ex4_init_test :
    seen (ex4_init kernel (some two_numbers) fresh)
    ≡ crashed (data_in_the_list (pos 4) ∷ data_in_the_list (pos 7) ∷ cleaning_up ∷ [])
unfolding ex4_init parse_params parse_tokens strsep store_value out cleanup test_linked_list
    destroy_linked_list_and_free free_entry kfree
ex4_init_test = refl
