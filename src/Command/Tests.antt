-- ===== src/Command/Tests.antt =====
-- Lines of an input file.
use network_optimization.Prelude.{◌≡◌, refl, none, some, [], ◌∷◌, ◌++◌}
use network_optimization.Command.{
  literal, run_until, scan_until, number_run, scan_size, runs_out, quote, set_format, get_format,
  print_format, set_command, get_command, print_command, problem_command, parse_command, shown,
}

-- `SET "ab" 12`
set_line :
    parse_command (set_format ++ (97 ∷ 98 ∷ quote ∷ 32 ∷ 49 ∷ 50 ∷ 10 ∷ []))
    ≡ set_command (97 ∷ 98 ∷ []) 12
unfolding parse_command literal scan_until run_until scan_size number_run runs_out
set_line = refl

-- `SET "ab"` has no length, and is no other command either.
short_line : parse_command (set_format ++ (97 ∷ 98 ∷ quote ∷ 10 ∷ [])) ≡ problem_command
unfolding parse_command literal scan_until run_until scan_size number_run runs_out
short_line = refl

get_line : parse_command (get_format ++ (97 ∷ quote ∷ 10 ∷ [])) ≡ get_command (97 ∷ [])
unfolding parse_command literal scan_until run_until scan_size number_run runs_out
get_line = refl

print_line :
    parse_command (print_format ++ (104 ∷ 105 ∷ 10 ∷ [])) ≡ print_command (some (104 ∷ 105 ∷ []))
unfolding parse_command literal scan_until run_until scan_size number_run runs_out
print_line = refl

-- A line with nothing to print leaves `key` unset.
unset_line : parse_command (print_format ++ (10 ∷ [])) ≡ print_command none
unfolding parse_command literal scan_until run_until scan_size number_run runs_out
unset_line = refl

-- Three letters without a terminator cannot be shown.
not_shown : shown 10 (65 ∷ 65 ∷ 65 ∷ []) ≡ none
unfolding shown
not_shown = refl
