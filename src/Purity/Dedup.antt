-- ===== src/Purity/Dedup.antt =====
-- purity/deduplication.py. The dictionary goes from SHA-256 fingerprints to entries; the counter of
-- bytes after deduplication is signed, as the code subtracts from it. A reference count never falls
-- below zero: the entry goes where it would.
use storage_appliance_archit.Base.{
  ℕ, zero, suc, ◌+◌, ◌-◌, Option, none, some, List, [], ◌∷◌, Bool, true, false, String, string_key,
  length, take, drop, min, leb, if◌then◌else◌, Exec, ok, gets,
}
use storage_appliance_archit.Base.Int.{ℤ, pos, ◌+ℤ◌, ◌-ℤ◌}
use storage_appliance_archit.Base.Dict.{Dict, lookup, insert, erase}
use storage_appliance_archit.Purity.Wire.{Bytes}
use storage_appliance_archit.Purity.Tools.{Tools}

pub record DedupEntry : Type 0 where
  pub fingerprint : String
  pub block_id : String
  pub size : ℕ
  pub reference_count : ℕ

pub record DedupResult : Type 0 where
  pub is_duplicate : Bool
  pub fingerprint : String
  pub existing_block_id : Option String
  pub reference_count : ℕ

pub record DedupStats : Type 0 where
  pub total_blocks : ℕ
  pub unique_blocks : ℕ
  pub duplicate_blocks : ℕ
  pub bytes_before_dedupe : ℕ
  pub bytes_after_dedupe : ℤ

pub record DedupEngine : Type 0 where
  pub min_block_size : ℕ
  pub max_block_size : ℕ
  pub dedupe_table : Dict String DedupEntry
  pub stats : DedupStats

abbrev pub no_stats : DedupStats
no_stats = record {
  total_blocks = 0;
  unique_blocks = 0;
  duplicate_blocks = 0;
  bytes_before_dedupe = 0;
  bytes_after_dedupe = pos 0;
}

unfoldable pub new_engine : ℕ → ℕ → DedupEngine
new_engine low high = record {
  min_block_size = low;
  max_block_size = high;
  dedupe_table = [];
  stats = no_stats;
}

-- What `check_duplicate` reports for the entry that the fingerprint has.
abbrev pub dedup_result : String → Option DedupEntry → DedupResult
dedup_result fp none = record {
  is_duplicate = false;
  fingerprint = fp;
  existing_block_id = none;
  reference_count = 0;
}
dedup_result fp (some e) = record {
  is_duplicate = true;
  fingerprint = fp;
  existing_block_id = some e.block_id;
  reference_count = e.reference_count;
}

unfoldable pub check_duplicate : Tools → Bytes → Exec DedupEngine DedupResult
check_duplicate tools content =
    gets (λ m. dedup_result (tools.sha256 content) (lookup (tools.sha256 content) m.dedupe_table))

abbrev pub count_block : ℕ → DedupStats → DedupStats
count_block n s = record s {
  total_blocks = s.total_blocks + 1;
  bytes_before_dedupe = s.bytes_before_dedupe + n;
}

abbrev pub one_more : DedupEntry → DedupEntry
one_more e = record e { reference_count = e.reference_count + 1 }

abbrev pub new_entry : String → String → ℕ → DedupEntry
new_entry fp id n = record { fingerprint = fp; block_id = id; size = n; reference_count = 1 }

abbrev pub duplicate : DedupStats → DedupStats
duplicate s = record s { duplicate_blocks = s.duplicate_blocks + 1 }

abbrev pub unique : ℕ → DedupStats → DedupStats
unique n s = record s {
  unique_blocks = s.unique_blocks + 1;
  bytes_after_dedupe = s.bytes_after_dedupe +ℤ pos n;
}

unfoldable pub register_block : Tools → Bytes → String → Exec DedupEngine (String × Bool)
register_block tools content id m =
    let fp = tools.sha256 content in
    let n = length content in
    elim (lookup fp m.dedupe_table) [
      | none ↦ (
        ok (fp, true),
        record m {
          dedupe_table = insert fp (new_entry fp id n) m.dedupe_table;
          stats = unique n (count_block n m.stats);
        },
      )
      | some e ↦ (
        ok (fp, false),
        record m {
          dedupe_table = insert fp (one_more e) m.dedupe_table;
          stats = duplicate (count_block n m.stats);
        },
      )
    ]

abbrev pub one_less : DedupEntry → DedupEntry
one_less e = record e { reference_count = e.reference_count - 1 }

-- `entry.reference_count <= 0` after the decrement is a count of at most one before it.
unfoldable pub dereference_block : String → Exec DedupEngine ℕ
dereference_block fp m = elim (lookup fp m.dedupe_table) [
  | none ↦ (ok 0, m)
  | some e ↦
      if leb e.reference_count 1
      then (
        ok 0,
        record m {
          dedupe_table = erase fp m.dedupe_table;
          stats = record m.stats { bytes_after_dedupe = m.stats.bytes_after_dedupe -ℤ pos e.size };
        },
      )
      else (
        ok (e.reference_count - 1),
        record m { dedupe_table = insert fp (one_less e) m.dedupe_table },
      )
]

unfoldable pub get_block_id : String → Exec DedupEngine (Option String)
get_block_id fp =
    gets (λ m. elim (lookup fp m.dedupe_table) [ none ↦ none | some e ↦ some e.block_id ])

unfoldable pub get_entry : String → Exec DedupEngine (Option DedupEntry)
get_entry fp = gets (λ m. lookup fp m.dedupe_table)

unfoldable pub clear : Exec DedupEngine (Unit {0})
clear m = (ok tt, record m { dedupe_table = []; stats = no_stats })

-- The loop of `chunk_data`, on fuel: the chunks that are yielded, with their offsets; `none` means
-- that the fuel ran out. `rest` is the data from the offset on.
unfoldable pub chunks_from : ℕ → ℕ → ℕ → Bytes → Option (List (ℕ × Bytes))
chunks_from zero least offset rest = none
chunks_from (suc fuel) least offset [] = some []
chunks_from (suc fuel) least offset (b ∷ bs) =
    let n = min least (length (b ∷ bs)) in
    elim (chunks_from fuel least (offset + n) (drop n (b ∷ bs))) [
      | none ↦ none
      | some rest ↦ some ((offset, take n (b ∷ bs)) ∷ rest)
    ]

unfoldable pub chunk_data : DedupEngine → Bytes → Option (List (ℕ × Bytes))
unfolding chunks_from
chunk_data m content = chunks_from (length content + 1) m.min_block_size 0 content
