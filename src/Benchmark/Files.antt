-- ===== src/Benchmark/Files.antt =====
-- What is in the files that the benchmark writes.
use usable_lib.Prelude.{ℕ, ◌≤◌, ◌≡◌, some, List, [], ◌∷◌, length, ◌==◌, if◌then◌else◌}
use usable_lib.CsvFile.{newline, split_at, open_file}
use usable_lib.CsvFile.Lines.{All, Plain}
use usable_lib.Benchmark.{
  Run, ring_run, atomic_run, moodycamel_run, clqueue_run, conq_flag_get, rte_mode,
}

-- The lines of the file are these and no other: opened where a line starts, the file gives the fields of
-- the line, and behind its last line nothing follows.
unfoldable pub Reads : List (List (List ℕ)) → List ℕ → Type 0
Reads [] file = file ≡ []
Reads (fs ∷ lines) file =
    (open_file file ≡ some fs)
    × (rest : List ℕ) × ((split_at newline file).1 ≡ some rest)
    × Reads lines rest

module _ (print : ℕ → List ℕ) (throughput : Run → ℕ → ℕ → List ℕ) where
  -- the throughputs of the columns behind the first, for `p` producers and `c` consumers
  unfoldable pub throughputs : ℕ → ℕ → ℕ → List (List ℕ)
  throughputs ts c p =
      let ring = throughput (ring_run (rte_mode p c)) p c in
      let cl = throughput (clqueue_run (conq_flag_get p c ts)) p c in
      if ts == 0
      then ring ∷ cl ∷ []
      else ring ∷ throughput atomic_run p c ∷ throughput moodycamel_run p c ∷ cl ∷ []

  -- what the texts of a row are made of
  unfoldable pub ArePlain : Type 0
  ArePlain =
      ((p : ℕ) → All Plain (print p))
      × ((run : Run) (p c : ℕ) → All Plain (throughput run p c) × (1 ≤ length (throughput run p c)))
