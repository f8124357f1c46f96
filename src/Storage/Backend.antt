-- ===== src/Storage/Backend.antt =====
-- storage/file_backend.py over the interface of storage/backend.py. The files below the data directory
-- are a dictionary from block ids to bytes, the JSON files below the metadata directory one from block
-- ids to their records: the path of a block is made of its id alone, and no other program writes
-- there. An I/O error but a missing file is not modelled.
use storage_appliance_archit.Base.{
  ℕ, ◌+◌, ◌-◌, Option, none, some, List, [], ◌∷◌, Bool, true, false, String, string_key,
  string_discrete, length, leb, if◌then◌else◌, ite, Exec, ok, raise, key_error, gets,
}
use storage_appliance_archit.Base.Dict.{Dict, lookup, insert, erase}
use storage_appliance_archit.Purity.Wire.{Bytes}
use storage_appliance_archit.Purity.Tools.{Tools}

pub record BlockInfo : Type 0 where
  pub block_id : String
  pub offset : ℕ
  pub size : ℕ
  pub checksum : String
  pub compressed : Bool
  pub deduplicated : Bool
  pub reference_count : ℕ

pub record BackendStats : Type 0 where
  pub blocks_written : ℕ
  pub blocks_read : ℕ
  pub blocks_deleted : ℕ
  pub bytes_written : ℕ
  pub bytes_read : ℕ

pub record FileBackend : Type 0 where
  pub initialized : Bool
  pub files : Dict String Bytes
  pub metadata : Dict String BlockInfo
  pub stats : BackendStats

unfoldable pub new_backend : FileBackend
new_backend = record {
  initialized = false;
  files = [];
  metadata = [];
  stats = record {
    blocks_written = 0;
    blocks_read = 0;
    blocks_deleted = 0;
    bytes_written = 0;
    bytes_read = 0;
  };
}

unfoldable pub initialize : Exec FileBackend (Unit {0})
initialize b = (ok tt, record b { initialized = true })

unfoldable pub shutdown : Exec FileBackend (Unit {0})
shutdown b = (ok tt, record b { initialized = false })

unfoldable pub get_block_info : String → Exec FileBackend (Option BlockInfo)
get_block_info id = gets (λ b. lookup id b.metadata)

unfoldable pub block_exists : String → Exec FileBackend Bool
block_exists id = gets (λ b. elim (lookup id b.files) [ none ↦ false | some _ ↦ true ])

-- `_write_metadata`
abbrev pub write_metadata : String → BlockInfo → FileBackend → FileBackend
write_metadata id info b = record b { metadata = insert id info b.metadata }

abbrev pub new_info : String → ℕ → String → BlockInfo
new_info id n checksum = record {
  block_id = id;
  offset = 0;
  size = n;
  checksum = checksum;
  compressed = false;
  deduplicated = false;
  reference_count = 1;
}

abbrev pub referenced : BlockInfo → BlockInfo
referenced i = record i { reference_count = i.reference_count + 1 }

abbrev pub released : BlockInfo → BlockInfo
released i = record i { reference_count = i.reference_count - 1 }

-- The part of `write_block` that writes the data.
abbrev pub write_file : String → Bytes → String → FileBackend → FileBackend
write_file id content checksum b = record b {
  files = insert id content b.files;
  metadata = insert id (new_info id (length content) checksum) b.metadata;
  stats = record b.stats {
    blocks_written = b.stats.blocks_written + 1;
    bytes_written = b.stats.bytes_written + length content;
  };
}

unfoldable pub write_block : Tools → String → Bytes → Exec FileBackend BlockInfo
write_block tools id content b =
    let checksum = tools.sha256 content in
    let fresh = new_info id (length content) checksum in
    elim (lookup id b.metadata) [
      | none ↦ (ok fresh, write_file id content checksum b)
      | some info ↦
          ite (string_discrete info.checksum checksum)
            (ok (referenced info), write_metadata id (referenced info) b)
            (ok fresh, write_file id content checksum b)
    ]

abbrev pub count_read : ℕ → FileBackend → FileBackend
count_read n b = record b {
  stats = record b.stats {
    blocks_read = b.stats.blocks_read + 1;
    bytes_read = b.stats.bytes_read + n;
  };
}

unfoldable pub read_block : String → Exec FileBackend Bytes
read_block id b = elim (lookup id b.files) [
  | none ↦ (raise key_error, b)
  | some content ↦ (ok content, count_read (length content) b)
]

-- The two files of a block go; a missing data file ends the call before that.
abbrev pub remove_files : String → FileBackend → FileBackend
remove_files id b = record b {
  files = erase id b.files;
  metadata = erase id b.metadata;
  stats = record b.stats { blocks_deleted = b.stats.blocks_deleted + 1 };
}

-- `info.reference_count <= 0` after the decrement is a count of at most one before it.
unfoldable pub delete_block : String → Exec FileBackend Bool
delete_block id b = elim (lookup id b.metadata) [
  | none ↦ (ok false, b)
  | some info ↦
      if leb info.reference_count 1
      then elim (lookup id b.files) [ none ↦ (ok false, b) | some _ ↦ (ok true, remove_files id b) ]
      else (ok true, write_metadata id (released info) b)
]

-- `list_blocks`, in the order of the directory
unfoldable pub keys_of : Dict String Bytes → List String
keys_of [] = []
keys_of ((id, _) ∷ d) = id ∷ keys_of d

unfoldable pub list_blocks : Exec FileBackend (List String)
unfolding keys_of
list_blocks = gets (λ b. keys_of b.files)

-- The totals of `get_stats`: the blocks that are listed and the sizes in their metadata.
unfoldable pub total_size : Dict String BlockInfo → List String → ℕ
total_size metadata [] = 0
total_size metadata (id ∷ ids) =
    let rest = total_size metadata ids in
    elim (lookup id metadata) [ none ↦ rest | some info ↦ info.size + rest ]

unfoldable pub get_totals : Exec FileBackend (ℕ × ℕ)
unfolding keys_of total_size
get_totals = gets (λ b. (length b.files, total_size b.metadata (keys_of b.files)))
