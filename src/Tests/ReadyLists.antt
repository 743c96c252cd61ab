-- ===== src/Tests/ReadyLists.antt =====
-- The ready list of study-linux-kernel/io-model/terminal-io-epoll-et.c on concrete lists.
use study_linux_kernel.Base.{
  ℕ, ◌≡◌, refl, [], ◌∷◌, true, false, none, some, length, replicate, ◌==◌, if◌then◌else◌,
}
use study_linux_kernel.Base.Run.{ok, fault, out_of_bounds, indeterminate}
use study_linux_kernel.ReadyList.Defs.{
  Event, ReadyFds, fd_exist_list, add_fd_to_list, remove_file_descriptor,
}
use study_linux_kernel.ReadyList.Content.{Holds, written, contains}
use study_linux_kernel.ReadyList.Add.{insert, answer, add-Holds, add_after_failure}
use study_linux_kernel.ReadyList.Remove.{remove_last, remove_inside}

abbrev stdin : Event
stdin = record { events = 1; fd = 0 }

abbrev pipe_end : Event
pipe_end = record { events = 1; fd = 3 }

abbrev third : Event
third = record { events = 1; fd = 5 }

-- After `memset(&ready_fds, 0, sizeof(ready_fds))`.
abbrev zeroed : ReadyFds
zeroed = record { size = 0; capacity = 0; curpos = 0; ep_events = [] }

zeroed-Holds : Holds [] 0 zeroed
unfolding written replicate
zeroed-Holds = record { size = refl; capacity = refl; cells = refl }

add-Holds_example :
    (spare' : ℕ) × (l' : ReadyFds) × (add_fd_to_list true (some zeroed) stdin
      ≡ ok (some (answer stdin []), some l'))
    × Holds (insert stdin []) spare' l'
add-Holds_example = add-Holds [] 0 zeroed stdin zeroed-Holds

add_after_failure_example :
    (l' : ReadyFds) × (add_fd_to_list false (some zeroed) stdin ≡ ok (none, some l'))
    × (add_fd_to_list true (some l') pipe_end ≡ fault out_of_bounds)
unfolding contains
add_after_failure_example = add_after_failure [] zeroed stdin pipe_end true zeroed-Holds refl refl

abbrev two : ReadyFds
two = record { size = 2; capacity = 2; curpos = 0; ep_events = some stdin ∷ some pipe_end ∷ [] }

two-Holds : Holds (stdin ∷ pipe_end ∷ []) 0 two
unfolding written replicate
two-Holds = record { size = refl; capacity = refl; cells = refl }

remove_last_example :
    (l' : ReadyFds) × (remove_file_descriptor true two pipe_end ≡ ok (some 0, l'))
    × Holds (stdin ∷ []) 1 l'
    × (l'.curpos ≡ (if two.curpos == length (stdin ∷ []) then 0 else two.curpos))
unfolding contains
remove_last_example = remove_last (stdin ∷ []) 0 two pipe_end two-Holds refl

remove_inside_example :
    (l' : ReadyFds) × (remove_file_descriptor true two stdin ≡ ok (some 0, l'))
    × (l'.size ≡ 1)
    × (l'.capacity ≡ 2)
    × (l'.ep_events ≡ none ∷ some pipe_end ∷ [])
    × (fd_exist_list l' third ≡ fault indeterminate)
unfolding contains written replicate
remove_inside_example = remove_inside [] [] 0 two stdin pipe_end third two-Holds refl refl refl
