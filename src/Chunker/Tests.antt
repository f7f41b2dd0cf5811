-- ===== src/Chunker/Tests.antt =====
-- Runs of the chunker on small inputs, and its theorems at such inputs.
use chunk_gate.Prelude.{
  ℕ, ◌+◌, ◌-◌, ◌^◌, ◌≤◌, ◌<◌, ◌≡◌, ◌≢◌, refl, List, [], ◌∷◌, length, append-nil, arith, none, some,
}
use chunk_gate.Prelude.Int.{pos}
use chunk_gate.Errors.{ok, background}
use chunk_gate.Chunker.Options.{
  Options, Splitter, IsValid, fastcdc, builtin, named, used_avg_size, new_splitter,
  new_splitter-IsValid, next_power_of_two, next_power_of_two_lem, double_up,
}
use chunk_gate.Chunker.Reader.{Reader, more, eof, contents}
use chunk_gate.Chunker.Builtin.{Chunk, stream_builtin}
use chunk_gate.Chunker.Stream.{FastCdc, finished, split, collect}
use chunk_gate.Chunker.Cuts.{chunks_of, bytes_of, Sized}
use chunk_gate.Chunker.Equivalence.{outcome, emit_all, stream_builtin_lem}
use chunk_gate.Chunker.Split.{Covers, FastCdcLaws, split-builtin, split-fastcdc, split-reads}

abbrev small_options : Options
small_options = record {
  min_size = pos 2;
  avg_size = pos 3;
  max_size = pos 4;
  small_file_threshold = pos 3;
  engine = named builtin;
}

abbrev small : Splitter
small = record {
  min_size = 2;
  avg_size = 3;
  max_size = 4;
  small_file_threshold = 3;
  engine = builtin;
  mask = 3;
}

small-IsValid : IsValid small
small-IsValid = omega arith

-- `New` on these options.
new_splitter-small : new_splitter small_options ≡ some small
unfolding new_splitter used_avg_size next_power_of_two double_up
new_splitter-small = refl

abbrev two_reads : Reader
two_reads =
    record { bytes = 1 ∷ 2 ∷ 3 ∷ []; end = more }
    ∷ record { bytes = 4 ∷ 5 ∷ 6 ∷ []; end = eof }
    ∷ []

abbrev one_read : Reader
one_read = record { bytes = 1 ∷ 2 ∷ 3 ∷ 4 ∷ 5 ∷ 6 ∷ []; end = more } ∷ []

-- A FastCDC that cuts nothing.
abbrev whole_engine : FastCdc
unfolding contents
whole_engine lo avg hi reader = ok (record { offset = 0; bytes = contents reader } ∷ [], finished)

fast_laws : FastCdcLaws whole_engine (record small { engine = fastcdc })
unfolding contents bytes_of
fast_laws = record {
  chunks = λ bytes. record { offset = 0; bytes = bytes } ∷ [];
  runs = λ reader c. refl;
  covers = λ bytes. (append-nil bytes, (refl, tt));
}

next_power_of_two_lem_example :
    (j : ℕ) × (next_power_of_two 1000 ≡ some (pos (2 ^ j))) × (1000 ≤ 2 ^ j) × (2 ^ j < 1000 + 1000)
next_power_of_two_lem_example = next_power_of_two_lem 1000 (omega arith) (omega arith)

new_splitter-IsValid_example :
    (s : Splitter) × (new_splitter small_options ≡ some s)
    × IsValid s
    × ((j : ℕ) × (s.mask ≡ 2 ^ j - 1) × (s.avg_size ≤ 2 ^ j) × (2 ^ j < s.avg_size + s.avg_size))
unfolding used_avg_size
new_splitter-IsValid_example = new_splitter-IsValid small_options (omega arith)

-- A size for which `New` does not return.
new_splitter-endless :
    new_splitter (record small_options { avg_size = pos 4611686018427387905 }) ≡ none
unfolding new_splitter used_avg_size next_power_of_two double_up
new_splitter-endless = refl

stream_builtin_lem_example :
    outcome (stream_builtin small background collect two_reads (record { polls = 0; user = [] }))
    ≡ emit_all collect (chunks_of small (contents two_reads)) []
stream_builtin_lem_example =
    stream_builtin_lem small collect two_reads (record { polls = 0; user = [] }) refl

split-builtin_example :
    (cs : List Chunk) × (split whole_engine small background two_reads ≡ ok cs)
    × Covers (contents two_reads) cs
    × (3 < length (contents two_reads) → Sized 2 4 cs)
split-builtin_example = split-builtin whole_engine small two_reads small-IsValid refl refl

split-fastcdc_example :
    (cs : List Chunk) × (split whole_engine (record small { engine = fastcdc }) background two_reads
      ≡ ok cs)
    × Covers (contents two_reads) cs
    × (cs ≢ [])
split-fastcdc_example =
    split-fastcdc whole_engine (record small { engine = fastcdc }) two_reads fast_laws refl refl

split-reads_example :
    split whole_engine small background two_reads ≡ split whole_engine small background one_read
unfolding contents
split-reads_example = split-reads whole_engine small two_reads one_read refl refl tt refl
