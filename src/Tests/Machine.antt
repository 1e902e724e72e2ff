-- ===== src/Tests/Machine.antt =====
-- A machine whose programs answer nothing, the output of a program, a file that is written and a
-- client on the loopback address.
use gotify_vps_agent.Prelude.{
  ℕ, ◌≡◌, refl, true, false, List, [], ◌∷◌, Option, none, some, ltb, leb, length, take, ◌-◌, arith,
}
use gotify_vps_agent.Prelude.Text.{Text, bytes}
use gotify_vps_agent.Runner.{not_run, fresh, write_all}
use gotify_vps_agent.Runner.Buffer.{write_all_lem, concat}
use gotify_vps_agent.Checks.Host.{Host, Floats, number, absent, counts}
use gotify_vps_agent.Checks.Kernel.{RawEntry}
use gotify_vps_agent.Securefile.{Calls, Disk, WriteError, write}
use gotify_vps_agent.Securefile.Atomic.{write-IsAtomic}

abbrev pub float : Floats ℕ
float = record {
  of_uint = λ n. n;
  divide = λ m n. m;
  multiply = λ m n. m;
  reaches = λ m n. leb n m;
  less = ltb;
  fixed = λ n m. [];
  parse = λ s. number 0;
  hours = λ d. 0;
  minutes = λ d. 0;
}

abbrev pub silent : Host
silent = record {
  run = λ path args. not_run (bytes "refused");
  exists = λ path. false;
  modified = λ path. none;
  regular_modified = λ path. none;
  read = λ path. absent;
  statfs = λ path. counts 0 0 0 0;
  now = 1000;
  cpus = 1;
  micro_text = λ t. [];
}

abbrev pub no_entry : Text → Option RawEntry
no_entry line = none

abbrev two_writes : List Text
two_writes = bytes "abc" ∷ bytes "def" ∷ []

write_all_lem_example :
    ((write_all (fresh 4) two_writes).buffer ≡ take 4 (concat two_writes))
    × ((write_all (fresh 4) two_writes).remaining ≡ 4 - length (concat two_writes))
    × ((write_all (fresh 4) two_writes).truncated ≡ ltb 4 (length (concat two_writes)))
write_all_lem_example = write_all_lem 4 two_writes (omega arith, (omega arith, tt))

abbrev full_disk : Calls
full_disk = record {
  directory_made = true;
  temporary_made = true;
  mode_changed = true;
  written = true;
  partial = [];
  synced = false;
  closed = true;
  renamed = true;
  removed = true;
}

abbrev old_file : Disk
old_file = record { target = some (bytes "old"); temporary = none }

write-IsAtomic_example :
    let (after, error) = write full_disk (bytes "new") old_file in
    (error ≡ none → (after.target ≡ some (bytes "new")) × (after.temporary ≡ none))
    × ((e : WriteError)
        → error ≡ some e
        → (after.target ≡ old_file.target) × (full_disk.removed ≡ true → after.temporary ≡ none))
write-IsAtomic_example = write-IsAtomic full_disk (bytes "new") old_file refl
